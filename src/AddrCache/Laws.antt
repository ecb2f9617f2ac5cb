-- ===== src/AddrCache/Laws.antt =====
-- What the cache returns, and that it never returns a translation that was not put in.
use type_ii_hypervisor_code.Common.{
  ℕ, ◌+◌, ◌-◌, ◌*◌, ◌/◌, ◌%◌, ◌^◌, ◌≤◌, ◌<◌, bit_and, ◌≡◌, ap, true, false, ◌&&◌, arith, ◌==◌,
  if◌then◌else◌, leb, Bool-cases, inl, inr,
}
use type_ii_hypervisor_code.Word.{add64, sub64, shr}
use type_ii_hypervisor_code.Word.Masks.{and-low_mask, and-high_mask}
use type_ii_hypervisor_code.Context.{Context, get_ldst}
use type_ii_hypervisor_code.AddrCache.{
  Cache, CacheEntry, get_cache_index, check_cache, update_cache, clear_cache, gva_base_mask,
}

abbrev pub page : ℕ → ℕ
page gva = gva / 4096

pub base_lem : (gva : ℕ) → gva < 2 ^ 64 → bit_and gva gva_base_mask ≡ page gva * 4096
base_lem gva h = and-high_mask 64 12 gva (omega arith) h

index_lem : (gva : ℕ) → gva < 2 ^ 64 → get_cache_index (bit_and gva gva_base_mask) ≡ page gva % 128
unfolding get_cache_index
index_lem gva h = rw base_lem (omega (arith, and-low_mask 7 (shr (page gva * 4096) 12)))

pub check_cache-eq :
    (cache : Cache) (gva : ℕ) (context : Context)
    → gva < 2 ^ 64
    → let e = cache (page gva % 128) in
      check_cache cache gva context
      ≡ (e.gva == page gva * 4096 && leb (get_ldst context) e.prot, add64 e.hva (gva % 4096))
unfolding check_cache
check_cache-eq cache gva context h =
    let off : sub64 gva (page gva * 4096) ≡ gva % 4096 = omega arith in
    rw (index_lem gva h, base_lem gva h, off) (ground arith)

update_cache-eq :
    (cache : Cache) (gva hva prot i : ℕ)
    → gva < 2 ^ 64
    → update_cache cache gva hva prot i ≡ (
        if i == page gva % 128
        then record { gva = page gva * 4096; hva = sub64 hva (gva % 4096); prot = prot }
        else cache i)
unfolding update_cache
update_cache-eq cache gva hva prot i h =
    let off : sub64 gva (page gva * 4096) ≡ gva % 4096 = omega arith in
    rw (index_lem gva h, base_lem gva h, off)

-- For addresses of 64 bits: after an update every address of the page is translated by the same
-- distance, if the page's protection covers the access; the other page in the same line is lost;
-- every other line is as before.
pub check_cache-update :
    (cache : Cache) (gva hva prot gva' : ℕ) (context : Context)
    → gva < 2 ^ 64
    → gva' < 2 ^ 64
    → hva < 2 ^ 64
    → let after = check_cache (update_cache cache gva hva prot) gva' context in
      after ≡ (
        if page gva' == page gva
        then (leb (get_ldst context) prot, (hva + 2 ^ 64 + gva' - gva) % 2 ^ 64)
        else if page gva' % 128 == page gva % 128
        then (false, after.1)
        else check_cache cache gva' context)
check_cache-update cache gva hva prot gva' context h h' k =
    rw
      (
        check_cache-eq (update_cache cache gva hva prot) gva' context h',
        check_cache-eq cache gva' context h',
        update_cache-eq cache gva hva prot (page gva' % 128) h,
      )
      (ground arith)

-- Every filled line holds the translation of its page by `target`, with no more rights than
-- `rights` allows.
abbrev pub Agrees : (target rights : ℕ → ℕ) → Cache → Type 0
Agrees target rights cache =
    (i p : ℕ)
    → i < 128
    → (cache i).gva ≡ p * 4096
    → ((cache i).hva ≡ target p % 2 ^ 64) × ((cache i).prot ≤ rights p)

pub clear_cache-Agrees :
    (target rights : ℕ → ℕ) (cache : Cache) → Agrees target rights (clear_cache cache)
unfolding clear_cache
clear_cache-Agrees target rights cache i p h e = absurd (ground arith)

-- For an address of 64 bits: filling a line with a translation that agrees keeps the cache in
-- agreement.
pub update_cache-Agrees :
    (target rights : ℕ → ℕ) (cache : Cache) (gva hva prot : ℕ)
    → Agrees target rights cache
    → gva < 2 ^ 64
    → hva ≡ (target (page gva) + gva % 4096) % 2 ^ 64
    → prot ≤ rights (page gva)
    → Agrees target rights (update_cache cache gva hva prot)
update_cache-Agrees target rights cache gva hva prot agrees h filled may i p bound e =
    elim (Bool-cases (i == page gva % 128)) [
      | inl same ↦
          let line : update_cache cache gva hva prot i
              ≡ record { gva = page gva * 4096; hva = sub64 hva (gva % 4096); prot = prot } =
            rw (update_cache-eq cache gva hva prot i h, same) in
          let here : page gva ≡ p = omega (arith, ap (λ (c : CacheEntry). c.gva) line) in
          rw line (rw (← here) (omega arith, may))
      | inr other ↦
          let line : update_cache cache gva hva prot i ≡ cache i =
            rw (update_cache-eq cache gva hva prot i h, other) in
          rw line (agrees i p bound (rw line at e))
    ]

-- For an address of 64 bits: a hit of a cache in agreement is the translation of the address, and
-- the page's rights cover the access.
pub check_cache-Agrees :
    (target rights : ℕ → ℕ) (cache : Cache) (gva : ℕ) (context : Context)
    → Agrees target rights cache
    → gva < 2 ^ 64
    → (check_cache cache gva context).0 ≡ true
    → ((check_cache cache gva context).1 ≡ (target (page gva) + gva % 4096) % 2 ^ 64)
      × (get_ldst context ≤ rights (page gva))
check_cache-Agrees target rights cache gva context agrees h hit =
    let hit' = rw (check_cache-eq cache gva context h) at hit in
    let (place, may) = agrees (page gva % 128) (page gva) (omega arith) (ground arith) in
    rw (check_cache-eq cache gva context h) (omega (arith, place), ground arith)

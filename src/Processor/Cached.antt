-- ===== src/Processor/Cached.antt =====
-- The address cache in front of the MMU: what is translated again, and when it is forgotten.
use type_ii_hypervisor_code.Common.{
  ℕ, ◌^◌, ◌≤◌, ◌<◌, ◌≡◌, ◌≢◌, refl, sym, leb, ◌&&◌, ◌*◌, ◌%◌, ap, subst, ◌∙◌, Bool, true, false,
  ◌==◌, arith, bit_and, Result, and_then,
}
use type_ii_hypervisor_code.Word.{add64}
use type_ii_hypervisor_code.Cp0.{read}
use type_ii_hypervisor_code.Context.{Context, get_ldst, get_prot}
use type_ii_hypervisor_code.AddrCache.{Cache, CacheEntry, check_cache, clear_cache}
use type_ii_hypervisor_code.AddrCache.Laws.{page, check_cache-eq, check_cache-update}
use type_ii_hypervisor_code.MemoryMap.{Mmap}
use type_ii_hypervisor_code.Processor.{
  Processor, Answer, cvmseg_mask, cvmseg_base_addr, gva_to_hva, remember, after_cache,
  addr_translation,
}
use type_ii_hypervisor_code.Processor.Requests.{tlb_write_i, tlb_write, handle_asid_change}

-- No address of 64 bits is found in the cache that has been cleared.
clear_cache-misses :
    (cache : Cache) (gva : ℕ) (context : Context)
    → gva < 2 ^ 64
    → (check_cache (clear_cache cache) gva context).0 ≡ false
unfolding clear_cache
clear_cache-misses cache gva context h = rw (check_cache-eq _ gva context h) (ground arith)

-- After a write of the TLB, and after a change of the address space, the address cache gives no
-- translation of any 64-bit address.
pub requests-forget :
    (p : Processor) (random gva : ℕ) (context : Context)
    → gva < 2 ^ 64
    → p.asid ≢ bit_and (read p.tlb.regs 10 0) 0xff
    → ((check_cache (tlb_write_i p).addr_cache gva context).0 ≡ false)
      × ((check_cache (tlb_write p random).addr_cache gva context).0 ≡ false)
      × ((check_cache (handle_asid_change p).addr_cache gva context).0 ≡ false)
unfolding tlb_write_i tlb_write handle_asid_change
requests-forget p random gva context h change =
    let misses = clear_cache-misses p.addr_cache gva context h in
    (misses, misses, ground (arith, misses))

-- An address that was translated is found in the cache by every access that its rights cover.
abbrev Finds : ℕ → Answer → Type 0
Finds gva (Result.ok (true, hva, p)) =
    (context : Context)
    → get_ldst context ≤ get_prot p.context
    → hva < 2 ^ 64
    → check_cache p.addr_cache gva context ≡ (true, hva)
Finds gva _ = Unit

remember-Finds : (gva : ℕ) (x : Answer) → gva < 2 ^ 64 → Finds gva (and_then x (remember gva))
unfolding and_then get_prot
remember-Finds gva (Result.ok (true, hva, p)) h = λ context may small.
    check_cache-update p.addr_cache gva hva p.context.loadstore gva context h h small ∙ ground arith
remember-Finds gva (Result.ok (false, hva, p)) h = tt
remember-Finds gva Result.exited h = tt
remember-Finds gva Result.undefined h = tt
remember-Finds gva Result.waiting h = tt

-- The cache finds an address whatever the access, if its rights cover it.
again :
    (cache : Cache) (gva : ℕ) (before context : Context)
    → gva < 2 ^ 64
    → (check_cache cache gva before).0 ≡ true
    → get_ldst context ≤ get_prot before
    → check_cache cache gva context ≡ (true, (check_cache cache gva before).1)
unfolding get_prot get_ldst
again cache gva before context h hit may =
    let first = check_cache-eq cache gva before h in
    let second = check_cache-eq cache gva context h in
    second ∙ ground (arith, ap (λ x. x.0) first, ap (λ x. x.1) first)

-- Only the line of the address is looked at.
same_line :
    (cache cache' : Cache) (gva : ℕ) (context : Context)
    → gva < 2 ^ 64
    → cache (page gva % 128) ≡ cache' (page gva % 128)
    → check_cache cache gva context ≡ check_cache cache' gva context
same_line cache cache' gva context h line =
    check_cache-eq cache gva context h
    ∙ ap
        (λ (e : CacheEntry).
          (e.gva == page gva * 4096 && leb (get_ldst context) e.prot, add64 e.hva (gva % 4096)))
        line
    ∙ sym (check_cache-eq cache' gva context h)

module _ (negative : ℕ) (mmap : Mmap) where
  after_cache-Finds :
      (p : Processor) (gva : ℕ) (found : Bool × ℕ)
      → gva < 2 ^ 64
      → (bit_and gva cvmseg_mask == cvmseg_base_addr) ≡ false
      → check_cache p.addr_cache gva p.context ≡ found
      → Finds gva (after_cache negative mmap p gva found)
  unfolding after_cache
  after_cache-Finds p gva (true, hva) h plain e = λ context may small.
      again p.addr_cache gva p.context context h (ap (λ x. x.0) e) may
      ∙ ap (λ a. (true, a)) (ap (λ x. x.1) e)
  after_cache-Finds p gva (false, hva) h plain e =
      rw plain (remember-Finds gva (gva_to_hva negative mmap p gva) h)

  -- A 64-bit address outside the local memory of the core that has been translated once, to an
  -- address of 64 bits, translates to the same, and without a change of the core, in every later
  -- state of the core in which the line of the cache for its page is as the first translation left
  -- it, for every access that the rights of the first translation cover; whatever the TLB, the
  -- registers and the memory map are by then, the operating mode among them.
  pub addr_translation_again :
      (p p' later : Processor) (gva hva : ℕ)
      → gva < 2 ^ 64
      → (bit_and gva cvmseg_mask == cvmseg_base_addr) ≡ false
      → addr_translation negative mmap p gva ≡ Result.ok (true, hva, p')
      → hva < 2 ^ 64
      → later.addr_cache (page gva % 128) ≡ p'.addr_cache (page gva % 128)
      → get_ldst later.context ≤ get_prot p'.context
      → addr_translation negative mmap later gva ≡ Result.ok (true, hva, later)
  unfolding addr_translation
  addr_translation_again p p' later gva hva h plain first small line may =
      let found : check_cache p'.addr_cache gva later.context ≡ (true, hva) =
        subst (Finds gva) first (after_cache-Finds p gva _ h plain refl) later.context may small in
      ap (after_cache negative mmap later gva)
        (same_line later.addr_cache p'.addr_cache gva later.context h line ∙ found)

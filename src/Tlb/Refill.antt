-- ===== src/Tlb/Refill.antt =====
-- The refill protocol: the exception sets EntryHi from the faulting address, the handler loads the
-- page into EntryLo0, EntryLo1 and PageMask and writes an entry, and the access is repeated.
use type_ii_hypervisor_code.Common.{
  ℕ, ◌+◌, ◌-◌, ◌^◌, ◌<◌, bit_and, bit_or, ◌≡◌, ◌≢◌, ◌⊎◌, refl, ap, ◌∙◌, true, arith, some, ==_refl,
  ==-eq-false,
}
use type_ii_hypervisor_code.Word.{bit, not64, shl, shr}
use type_ii_hypervisor_code.Word.Bits.{
  bit-and, bit-or, bit-not, bit-shr, bit-mul, bit-high, eq_of_bits, or-lt,
}
use type_ii_hypervisor_code.Word.Masks.{bits_apart}
use type_ii_hypervisor_code.Cp0.{Regs, read, reserved_bits}
use type_ii_hypervisor_code.Context.{Context, access_write, get_ldst, set_prot}
use type_ii_hypervisor_code.Exception.{tlb_registers}
use type_ii_hypervisor_code.Tlb.Entries.{set_entry, seg_mask, min_page_mask}
use type_ii_hypervisor_code.Tlb.{
  Tlb, put_entry, write_entry, get_asid, hits, page_mask, page_v, page_d, page_pfn, gva_to_gpa,
}
use type_ii_hypervisor_code.Tlb.Translate.{FirstHit, NoHit, gva_to_gpa-hit}

-- EntryHi behind a TLB exception.
abbrev refill_hi : ℕ → ℕ → ℕ
refill_hi hi gva =
    bit_or (bit_and hi 0xff)
      (bit_or (bit_and (bit_and gva (not64 0x1fff)) seg_mask) (bit_and gva (shl 3 62)))

tlb_registers-entry_hi :
    (regs : Regs) (gva : ℕ) → read (tlb_registers regs gva) 10 0 ≡ refill_hi (read regs 10 0) gva
unfolding tlb_registers reserved_bits
tlb_registers-entry_hi regs gva = refl

-- The three fields that an entry takes from it.
refill-asid : (hi gva : ℕ) → bit_and (refill_hi hi gva) 0xff ≡ bit_and hi 0xff
refill-asid hi gva = eq_of_bits _ _ (λ i.
    simp (bit-and, bit-or)
      (ground (arith, bits_apart (not64 0x1fff) 0xff i refl, bits_apart (shl 3 62) 0xff i refl)))

refill-vpn :
    (hi gva : ℕ)
    → bit_and (bit_and (refill_hi hi gva) (not64 0x1fff)) seg_mask
      ≡ bit_and (bit_and gva (not64 0x1fff)) seg_mask
refill-vpn hi gva = eq_of_bits _ _ (λ i.
    simp (bit-and, bit-or)
      (ground
        (arith, bits_apart 0xff (not64 0x1fff) i refl, bits_apart (shl 3 62) seg_mask i refl)))

refill-region : (hi gva : ℕ) → bit_and (shr (refill_hi hi gva) 62) 3 ≡ bit_and (shr gva 62) 3
refill-region hi gva = eq_of_bits _ _ (λ i.
    rw (bit-and, bit-and, bit-shr (refill_hi hi gva) 62 i, bit-shr gva 62 i)
      (simp (bit-and, bit-or)
        (ground (
          arith,
          bit-mul 3 62 (62 + i),
          bit-high 0xff 62 (62 + i) (omega arith) (omega arith),
          bit-high seg_mask 62 (62 + i) (omega arith) (omega arith),
          ap (bit 3) {x = 62 + i - 62} {y = i} (omega arith),
        ))))

-- The tag comparison, for any page mask.
refill-tag :
    (gva mask : ℕ)
    → mask < 2 ^ 64
    → let m = bit_or mask min_page_mask in
      bit_and (bit_and (bit_and gva (not64 0x1fff)) seg_mask) (not64 m)
      ≡ bit_and (bit_and gva (not64 m)) seg_mask
refill-tag gva mask h = eq_of_bits _ _ (λ i.
    let m = bit_or mask min_page_mask in
    let lt : m < 2 ^ 64 = or-lt 64 mask min_page_mask h (omega arith) in
    simp bit-and (
      ground
        (arith, bit-not 64 m i lt, bit-not 64 0x1fff i (omega arith), bit-or mask min_page_mask i)))

set_entry-hits :
    (regs : Regs) (hi gva : ℕ)
    → read regs 10 0 ≡ refill_hi hi gva
    → read regs 5 0 < 2 ^ 64
    → hits (get_asid regs) gva (set_entry regs) ≡ true
unfolding hits get_asid set_entry
set_entry-hits regs hi gva e h =
    let hi' = read regs 10 0 in
    let m = bit_or (read regs 5 0) min_page_mask in
    let tag : bit_and (bit_and (bit_and hi' (not64 0x1fff)) seg_mask) (not64 m)
        ≡ bit_and (bit_and gva (not64 m)) seg_mask =
      rw (e, refill-vpn hi gva) (refill-tag gva (read regs 5 0) h) in
    let region : bit_and (shr hi' 62) 3 ≡ bit_and (shr gva 62) 3 = rw e (refill-region hi gva) in
    rw (tag, region, ==_refl, ==_refl, ==_refl) (ground arith)

-- The state `t'` in which a handler for a miss of `gva` in `t` writes its entry: EntryHi is what
-- the exception left, the entries are those of the miss.
pub record InHandler (t t' : Tlb) (gva : ℕ) : Type 0 where
  pub entry_hi : read t'.regs 10 0 ≡ read (tlb_registers t.regs gva) 10 0
  pub mask : read t'.regs 5 0 < 2 ^ 64
  pub entries : (i : ℕ) → t'.entry i ≡ t.entry i

InHandler-asid : (t t' : Tlb) (gva : ℕ) → InHandler t t' gva → get_asid t'.regs ≡ get_asid t.regs
unfolding get_asid
InHandler-asid t t' gva h =
    rw (h.entry_hi, tlb_registers-entry_hi) (refill-asid (read t.regs 10 0) gva)

-- After a miss, the entry that the handler writes at any index is the first that hits.
pub write_entry-FirstHit :
    (t t' : Tlb) (gva idx : ℕ)
    → NoHit t gva
    → InHandler t t' gva
    → idx < 64
    → FirstHit (write_entry t' idx) gva idx
unfolding write_entry put_entry
write_entry-FirstHit t t' gva idx miss h bound = record {
  bound = bound;
  hit = rw ==_refl (
      set_entry-hits t'.regs (read t.regs 10 0) gva (h.entry_hi ∙ tlb_registers-entry_hi t.regs gva)
        h.mask);
  before = λ j lt.
      rw (==-eq-false j idx (omega arith), h.entries j, InHandler-asid t t' gva h)
        (miss j (omega arith));
}

-- When `gva` hits no entry and its handler, with the EntryHi that the exception left, has written an
-- entry at any index, the repeated access succeeds if the page loaded is valid and, for a store,
-- dirty: it gives the frame of the page with the offset of the address, and hands the page's dirty
-- bit to the context.
pub refill-resolves :
    (t t' : Tlb) (gva idx : ℕ) (context : Context)
    → NoHit t gva
    → InHandler t t' gva
    → idx < 64
    → let e = set_entry t'.regs in
      page_v gva e ≢ 0
      → (get_ldst context ≢ access_write) ⊎ (page_d gva e ≢ 0)
      → gva_to_gpa (write_entry t' idx) gva context
        ≡ some (record {
          ok = true;
          address = bit_or (page_pfn gva e) (bit_and gva (shr (page_mask e) 1));
          regs = t'.regs;
          context = set_prot (page_d gva e) context;
        })
unfolding write_entry put_entry
refill-resolves t t' gva idx context miss h bound valid may =
    let here : (write_entry t' idx).entry idx ≡ set_entry t'.regs = rw ==_refl in
    let found = write_entry-FirstHit t t' gva idx miss h bound in
    rw here at
      (gva_to_gpa-hit (write_entry t' idx) gva context idx found (rw here valid) (rw here may))

-- ===== src/Tlb/Translate.antt =====
-- `TLB_IPE::GVAtoGPA`: what a translation returns on each path.
use type_ii_hypervisor_code.Common.{
  ℕ, ◌+◌, ◌≤◌, ◌<◌, bit_and, bit_or, ◌≡◌, ◌≢◌, ◌⊎◌, true, false, arith, some, none,
}
use type_ii_hypervisor_code.Word.{shr}
use type_ii_hypervisor_code.Context.{Context, access_write, get_ldst, set_prot}
use type_ii_hypervisor_code.Exception.{
  tlbl, tlb_mod, tlb_inv, enter, tlb_registers, tlb_excep, perform_exception, cause_exc_code,
}
use type_ii_hypervisor_code.Tlb.{
  Tlb, get_asid, hits, page_v, page_d, page_pfn, page_mask, page_fault, faulted, gva_to_gpa,
  hit_index,
}
use type_ii_hypervisor_code.Tlb.Search.{first_from_first, first_from-all_fail}

-- `idx` is the first entry that hits.
pub record FirstHit (t : Tlb) (gva idx : ℕ) : Type 0 where
  pub bound : idx < 64
  pub hit : hits (get_asid t.regs) gva (t.entry idx) ≡ true
  pub before : (j : ℕ) → j < idx → hits (get_asid t.regs) gva (t.entry j) ≡ false

abbrev pub NoHit : Tlb → ℕ → Type 0
NoHit t gva = (j : ℕ) → j < 64 → hits (get_asid t.regs) gva (t.entry j) ≡ false

first-found : (t : Tlb) (gva : ℕ) {idx : ℕ} → FirstHit t gva idx → hit_index t gva ≡ some idx
first-found t gva {idx} first =
    first_from_first _ 64 0 idx (omega arith) first.bound first.hit (λ j _ q. first.before j q)

-- A translation through a valid page that the access may use returns the frame with the offset of
-- the address, leaves the registers alone and hands the page's dirty bit to the context.
pub gva_to_gpa-hit :
    (t : Tlb) (gva : ℕ) (context : Context) (idx : ℕ)
    → FirstHit t gva idx
    → page_v gva (t.entry idx) ≢ 0
    → (get_ldst context ≢ access_write) ⊎ (page_d gva (t.entry idx) ≢ 0)
    → gva_to_gpa t gva context
      ≡ some (record {
        ok = true;
        address =
            bit_or (page_pfn gva (t.entry idx)) (bit_and gva (shr (page_mask (t.entry idx)) 1));
        regs = t.regs;
        context = set_prot (page_d gva (t.entry idx)) context;
      })
unfolding gva_to_gpa
gva_to_gpa-hit t gva context idx first valid may =
    let fine : page_fault gva context (t.entry idx) ≡ none = unfold page_fault in ground arith in
    rw (first-found t gva first, fine)

-- With no entry for the address and an access kind of 0 or 1, the exception is a refill: code 2 for
-- a load, 3 for a store.
pub gva_to_gpa-miss :
    (t : Tlb) (gva : ℕ) (context : Context)
    → NoHit t gva
    → get_ldst context ≤ 1
    → let code = tlbl + get_ldst context in
      let r = enter (tlb_registers t.regs gva) gva code code context in
      gva_to_gpa t gva context
      ≡ some (record { ok = false; address = r.0; regs = r.1; context = context })
unfolding gva_to_gpa faulted tlb_excep perform_exception cause_exc_code
gva_to_gpa-miss t gva context miss small =
    let none_found =
      first_from-all_fail (λ i. hits (get_asid t.regs) gva (t.entry i)) 64 0
        (λ j _ q. miss j (omega arith)) in
    let known : cause_exc_code (tlbl + get_ldst context) context ≡ some (tlbl + get_ldst context) =
      ground arith in
    rw (none_found, known)

-- A hit on an invalid page: the code is 2 plus the dirty bit of the page, since `setProt` has
-- overwritten the cell that `getLDST` reads.
gva_to_gpa-invalid :
    (t : Tlb) (gva : ℕ) (context : Context) (idx : ℕ)
    → FirstHit t gva idx
    → page_v gva (t.entry idx) ≡ 0
    → let d = page_d gva (t.entry idx) in
      let r = enter (tlb_registers t.regs gva) gva tlb_inv (tlbl + d) (set_prot d context) in
      gva_to_gpa t gva context
      ≡ some (record { ok = false; address = r.0; regs = r.1; context = set_prot d context })
unfolding gva_to_gpa faulted tlb_excep perform_exception cause_exc_code set_prot
gva_to_gpa-invalid t gva context idx first invalid =
    let bad : page_fault gva context (t.entry idx) ≡ some tlb_inv =
      unfold page_fault in ground arith in
    rw (first-found t gva first, bad)

-- A store through a clean page.
pub gva_to_gpa-modified :
    (t : Tlb) (gva : ℕ) (context : Context) (idx : ℕ)
    → FirstHit t gva idx
    → page_v gva (t.entry idx) ≢ 0
    → get_ldst context ≡ access_write
    → page_d gva (t.entry idx) ≡ 0
    → let r = enter (tlb_registers t.regs gva) gva tlb_mod tlb_mod (set_prot 0 context) in
      gva_to_gpa t gva context
      ≡ some (record { ok = false; address = r.0; regs = r.1; context = set_prot 0 context })
unfolding gva_to_gpa faulted tlb_excep perform_exception cause_exc_code set_prot
gva_to_gpa-modified t gva context idx first valid store clean =
    let bad : page_fault gva context (t.entry idx) ≡ some tlb_mod =
      unfold page_fault in ground arith in
    rw (first-found t gva first, bad, clean)

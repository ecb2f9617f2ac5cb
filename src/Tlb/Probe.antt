-- ===== src/Tlb/Probe.antt =====
-- `tlbp`.
use type_ii_hypervisor_code.Common.{
  ℕ, ◌+◌, ◌-◌, ◌≤◌, ◌<◌, bit_or, ◌≡◌, ◌⊎◌, Bool, true, false, ◌&&◌, arith, ◌==◌, ==-eq-false, inl,
  inr, Option-cases,
}
use type_ii_hypervisor_code.Word.Masks.{and-low_mask, and_comm}
use type_ii_hypervisor_code.Cp0.{Regs, read, write, reserved_bits}
use type_ii_hypervisor_code.Tlb.Entries.{Entry}
use type_ii_hypervisor_code.Tlb.Search.{first_from, first_from-some, first_from-none}
use type_ii_hypervisor_code.Tlb.{Tlb, get_asid, same_page, tlb_probe, drop_duplicate, max_entries}

-- The test of the first loop.
abbrev pub probed : Tlb → ℕ → Bool
probed t i = same_page (get_asid t.regs) (read t.regs 10 0) (t.entry i)

drop_duplicate-below :
    (asid : ℕ) (regs : Regs) (entries : ℕ → Entry) (idx j : ℕ)
    → j < idx
    → drop_duplicate asid regs entries idx j ≡ entries j
unfolding drop_duplicate
drop_duplicate-below asid regs entries idx j h =
    let test =
      λ (i : ℕ). same_page asid (read regs 10 0) (entries i) && ((entries i).validity == 0) in
    elim (Option-cases (first_from test (64 - idx) idx)) [
      | inl e ↦ rw e
      | inr (i, e) ↦
          let (lo, hi, pass, before) = first_from-some test (64 - idx) idx e in
          rw (e, ==-eq-false j i (omega arith))
    ]

abbrev pub Found : Tlb → Tlb → Type 0
Found t after =
    (idx : ℕ) × (idx < 64)
    × (probed t idx ≡ true)
    × ((j : ℕ) → j < idx → probed t j ≡ false)
    × (read after.regs 0 0 ≡ idx)
    × ((j : ℕ) → j ≤ idx → after.entry j ≡ t.entry j)

abbrev pub NotFound : Tlb → Tlb → Type 0
NotFound t after =
    ((j : ℕ) → j < 64 → probed t j ≡ false)
    × (read after.regs 0 0 ≡ bit_or (read t.regs 0 0) 0xffff_ffff_8000_0000)
    × ((j : ℕ) → after.entry j ≡ t.entry j)

-- A probe finds the first entry of the page: Index then holds it, with the probe bit clear, and it
-- and the entries below keep their values; or no entry is of the page, bits 31 and up of Index are
-- set and no entry changes.
pub tlb_probe_lem : (t : Tlb) → Found t (tlb_probe t) ⊎ NotFound t (tlb_probe t)
unfolding tlb_probe reserved_bits read write
tlb_probe_lem t = elim (Option-cases (first_from (probed t) max_entries 0)) [
  | inl e ↦
      inr (λ j h. first_from-none (probed t) 64 0 e j (omega arith) (omega arith), rw e, λ j. rw e)
  | inr (idx, e) ↦
      let (lo, hi, pass, before) = first_from-some (probed t) 64 0 e in
      inl (
        idx,
        hi,
        pass,
        λ j h. before j (omega arith) h,
        rw e (omega (arith, and_comm 0x3f idx, and-low_mask 6 idx)),
        λ j h. rw e (drop_duplicate-below _ _ t.entry (idx + 1) j (omega arith)),
      )
]

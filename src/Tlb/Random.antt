-- ===== src/Tlb/Random.antt =====
-- The helpers of `TLB_IPE` for the registers Random, Index and EntryHi that no other operation of it
-- calls.
use type_ii_hypervisor_code.Common.{
  ℕ, ◌+◌, ◌*◌, ◌/◌, ◌%◌, ◌^◌, ◌≡◌, ◌≤◌, ◌<◌, bit_and, bit_or, if◌then◌else◌, ltb, arith,
}
use type_ii_hypervisor_code.Word.{shr}
use type_ii_hypervisor_code.Word.Masks.{and-low_mask}
use type_ii_hypervisor_code.Cp0.{Regs, read, write, set_slot, reserved_bits, low_half}
use type_ii_hypervisor_code.Tlb.Entries.{reset_entry}
use type_ii_hypervisor_code.Tlb.{Tlb, max_entries, put_entry, get_wired}

unfoldable pub get_random : Regs → ℕ
get_random regs = bit_and (read regs 1 0) 0x3f

unfoldable pub set_random : Regs → ℕ → Regs
set_random regs value = write regs (bit_and value 0x3f) 1 0

-- Behind the last entry it goes on with the first one that is not wired.
unfoldable pub inc_random : Regs → Regs
unfolding get_random get_wired
inc_random regs =
    let random = get_random regs + 1 in
    write regs (if ltb random max_entries then random else get_wired regs) 1 0

unfoldable pub set_index : Regs → ℕ → Regs
set_index regs index_val = write regs (bit_and 0x3f index_val) 0 0

unfoldable pub set_probe : Regs → Regs
set_probe regs = write regs (bit_or (read regs 0 0) 0xffff_ffff_8000_0000) 0 0

unfoldable pub check_region : Regs → ℕ
check_region regs = bit_and 3 (shr (read regs 10 0) 62)

unfoldable pub reset_tlb_entry : Tlb → ℕ → Tlb
reset_tlb_entry t idx = record t { entry = put_entry t.entry idx (reset_entry (t.entry idx)) }

masked : (x : ℕ) → bit_and x 0x3f < 64
masked x = omega (arith, and-low_mask 6 x)

-- A Random register that is not below Wired stays in the entries that are not wired.
inc_random_lem :
    (regs : Regs)
    → get_wired regs ≤ get_random regs
    → (get_wired regs ≤ get_random (inc_random regs)) × (get_random (inc_random regs) < 64)
unfolding inc_random get_random get_wired read write set_slot reserved_bits low_half
inc_random_lem regs h =
    let wired_small = masked (regs 48) in
    let n =
      if ltb (bit_and (regs 8) 0x3f + 1) 64
      then bit_and (regs 8) 0x3f + 1
      else bit_and (regs 48) 0x3f in
    let small : n < 64 = ground (arith, wired_small) in
    let kept : bit_and n 0x3f ≡ n = omega (arith, small, and-low_mask 6 n) in
    let half : n * 2 ^ 32 % 2 ^ 64 / 2 ^ 32 ≡ n = omega (arith, small) in
    rw (kept, half, kept) (ground (arith, h, wired_small), small)

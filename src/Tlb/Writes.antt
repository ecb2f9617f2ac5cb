-- ===== src/Tlb/Writes.antt =====
-- `tlbwi`, `tlbwr` and `tlbr`.
use type_ii_hypervisor_code.Common.{
  ℕ, ◌-◌, ◌≤◌, ◌<◌, bit_and, bit_or, ◌≡◌, ◌↔◌, arith, ◌==◌, ◌||◌, if◌then◌else◌,
}
use type_ii_hypervisor_code.Word.{not64}
use type_ii_hypervisor_code.Word.Masks.{and-low_mask}
use type_ii_hypervisor_code.Cp0.{Regs, read, write, slot, reserved_bits}
use type_ii_hypervisor_code.Tlb.Entries.{
  get_entry_hi, set_entry, seg_mask, min_page_mask, get_pagemask, get_entry_lo0, get_entry_lo1,
}
use type_ii_hypervisor_code.Tlb.{
  Tlb, put_entry, get_index, get_wired, write_entry, tlb_write_index, random_index, tlb_random,
  tlb_read,
}

pub get_wired-lt : (regs : Regs) → get_wired regs < 64
unfolding get_wired
get_wired-lt regs = omega (arith, and-low_mask 6 (read regs 6 0))

-- `tlbwr` never writes a wired entry: every entry below Wired keeps its value.
tlb_random-wired :
    (t : Tlb) (random i : ℕ) → i < get_wired t.regs → (tlb_random t random).entry i ≡ t.entry i
unfolding tlb_random random_index write_entry put_entry
tlb_random-wired t random i h = ground (arith, get_wired-lt t.regs)

-- The index that `tlbwr` writes is inside the array for every random number exactly when at most
-- 32 entries are wired.
random_index_bound_iff :
    (wired : ℕ) → wired < 64 → ((random : ℕ) → random_index random wired < 64) ↔ (wired ≤ 32)
unfolding random_index
random_index_bound_iff wired h =
    (λ all. ground (arith, all (wired - 1)), λ few random. ground arith)

-- Whatever the registers have become since `tlbwi`, with the same index in Index: `tlbr` gives
-- PageMask, EntryLo0 and EntryLo1 the values that they had when `tlbwi` wrote the entry, EntryHi
-- its value then without the region bits, and it leaves every other register as it is.
pub tlb_read-write_index :
    (t : Tlb) (later : Regs) (i : ℕ)
    → get_index later ≡ get_index t.regs
    → (tlb_read (record (tlb_write_index t) { regs = later })).regs i ≡ (
        if i == slot 10 0
        then bit_or
            (bit_and (bit_and (read t.regs 10 0) (not64 min_page_mask)) seg_mask)
            (bit_and (read t.regs 10 0) 0xff)
        else if i == slot 5 0 || i == slot 2 0 || i == slot 3 0
        then t.regs i
        else later i)
unfolding tlb_read tlb_write_index write_entry put_entry get_entry_hi set_entry get_pagemask
    get_entry_lo0 get_entry_lo1 write reserved_bits
tlb_read-write_index t later i h = ground (arith, h)

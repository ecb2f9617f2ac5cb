-- ===== src/Tlb/Entries.antt =====
-- `TLB_Entry_IPE`: one entry, with its fields taken from the registers.
use type_ii_hypervisor_code.Common.{ℕ, bit_and, bit_or, if◌then◌else◌, Bool}
use type_ii_hypervisor_code.Word.{has, not64, shl, shr}
use type_ii_hypervisor_code.Cp0.{Regs, read}

pub record Entry : Type 0 where
  pub pagemask : ℕ
  pub entry_hi : ℕ
  pub entry_lo0 : ℕ
  pub entry_lo1 : ℕ
  pub vpn : ℕ
  pub asid : ℕ
  pub region : ℕ  -- `R`
  pub global : ℕ  -- `G`
  pub validity : ℕ
  pub c0 : ℕ
  pub c1 : ℕ
  pub v0 : ℕ
  pub v1 : ℕ
  pub d0 : ℕ
  pub d1 : ℕ
  pub pfn0 : ℕ
  pub pfn1 : ℕ

abbrev pub entry_valid : ℕ
entry_valid = 0

abbrev pub entry_invalid : ℕ
entry_invalid = 1

abbrev pub seg_mask : ℕ
seg_mask = 0x1_ffff_ffff_ffff

abbrev pub min_page_mask : ℕ
min_page_mask = 0x1fff

abbrev pub to_ℕ : Bool → ℕ
to_ℕ b = if b then 1 else 0

unfoldable pub get_pagemask : Entry → ℕ
get_pagemask e = e.pagemask

-- The region is left out.
unfoldable pub get_entry_hi : Entry → ℕ
get_entry_hi e = bit_or e.vpn e.asid

unfoldable pub get_entry_lo0 : Entry → ℕ
get_entry_lo0 e = e.entry_lo0

unfoldable pub get_entry_lo1 : Entry → ℕ
get_entry_lo1 e = e.entry_lo1

-- The page frame of `EntryLo0` or `EntryLo1`.
unfoldable pub frame : ℕ → ℕ → ℕ
frame lo pagemask = bit_and (shl (shr lo 6) 12) (not64 (shr pagemask 1))

-- `set_Entry`: every field is set anew.
unfoldable pub set_entry : Regs → Entry
unfolding has frame read
set_entry regs =
    let pagemask = read regs 5 0 in
    let hi = read regs 10 0 in
    let lo0 = read regs 2 0 in
    let lo1 = read regs 3 0 in
    record {
      pagemask = pagemask;
      entry_hi = hi;
      entry_lo0 = lo0;
      entry_lo1 = lo1;
      vpn = bit_and (bit_and hi (not64 min_page_mask)) seg_mask;
      asid = bit_and hi 0xff;
      region = bit_and (shr hi 62) 3;
      global = bit_and (bit_and lo0 lo1) 1;
      validity = entry_valid;
      c0 = bit_and (shr lo0 3) 7;
      c1 = bit_and (shr lo1 3) 7;
      v0 = to_ℕ (has lo0 2);
      v1 = to_ℕ (has lo1 2);
      d0 = to_ℕ (has lo0 4);
      d1 = to_ℕ (has lo1 4);
      pfn0 = frame lo0 pagemask;
      pfn1 = frame lo1 pagemask;
    }

-- `reset_Entry`: R, G and the bits of each page keep what they were.
unfoldable pub reset_entry : Entry → Entry
reset_entry e = record e {
  pagemask = 0;
  entry_hi = 0;
  entry_lo0 = 0;
  entry_lo1 = 0;
  vpn = 0;
  asid = 0;
  validity = entry_invalid;
  pfn0 = 0;
  pfn1 = 0;
}

-- ===== src/Tests/Translation.antt =====
-- The TLB and the MMU at concrete inputs.
use type_ii_hypervisor_code.Common.{
  ℕ, ◌+◌, ◌*◌, ◌-◌, ◌%◌, ◌^◌, ◌<◌, ◌≤◌, bit_and, bit_or, ◌≡◌, ◌↔◌, ◌⊎◌, inr, refl, true, arith,
  ◌==◌, ◌||◌, if◌then◌else◌, some,
}
use type_ii_hypervisor_code.Word.{not64, shr}
use type_ii_hypervisor_code.Context.{Context, access_write, set_prot}
use type_ii_hypervisor_code.Cp0.{Regs, slot, read, write, set_slot, reserved_bits, get_ksu}
use type_ii_hypervisor_code.Exception.{tlb_registers}
use type_ii_hypervisor_code.Tlb
use type_ii_hypervisor_code.Tlb.{
  Tlb, get_asid, hits, same_page, odd_page, page_v, page_d, page_pfn, page_mask, write_entry,
  get_wired, random_index, tlb_random, tlb_read, tlb_write_index, get_index, tlb_probe,
}
use type_ii_hypervisor_code.Tlb.Entries.{Entry, set_entry, min_page_mask, seg_mask}
use type_ii_hypervisor_code.Tlb.Translate.{FirstHit, NoHit}
use type_ii_hypervisor_code.Tlb.Refill.{InHandler, write_entry-FirstHit, refill-resolves}
use type_ii_hypervisor_code.Tlb.Writes.{tlb_read-write_index}
use type_ii_hypervisor_code.Tlb.Probe.{Found, NotFound, tlb_probe_lem}
use type_ii_hypervisor_code.Mmu
use type_ii_hypervisor_code.Mmu.{verify_priviliges, gva_to_gpa_for_fileloading}
use type_ii_hypervisor_code.Mmu.Privileges.{IsCompatible, verify_priviliges_user_iff}
use type_ii_hypervisor_code.Mmu.Segments.{gva_to_gpa_unmapped}

abbrev no_entry : Entry
no_entry = record {
  pagemask = 0;
  entry_hi = 0;
  entry_lo0 = 0;
  entry_lo1 = 0;
  vpn = 0;
  asid = 0;
  region = 0;
  global = 0;
  validity = 1;
  c0 = 0;
  c1 = 0;
  v0 = 0;
  v1 = 0;
  d0 = 0;
  d1 = 0;
  pfn0 = 0;
  pfn1 = 0;
}

abbrev kernel_regs : Regs
kernel_regs i = 0

abbrev mode_regs : ℕ → Regs
mode_regs mode i = if i == 96 then mode * 8 else if i == 48 then 4 else 0

abbrev load : Context
load = record { loadstore = 0; pc = 0x1_2000_0040; write_data = 0 }

abbrev store : Context
store = record { loadstore = 1; pc = 0x1_2000_0040; write_data = 7 }

abbrev empty_tlb : Tlb
empty_tlb = record { regs = kernel_regs; entry = λ i. no_entry }

-- What a handler for 0x4abc has loaded: an even page with V = D = 1, a clean odd one.
abbrev loaded : ℕ → ℕ → Tlb
loaded lo0 lo1 = record {
  regs = λ i. if i == 16 then lo0 else if i == 24 then lo1 else tlb_registers kernel_regs 0x4abc i;
  entry = λ i. no_entry;
}

empty_tlb-NoHit : (gva : ℕ) → NoHit empty_tlb gva
unfolding hits
empty_tlb-NoHit gva j h = ground arith

loaded-InHandler : (lo0 lo1 : ℕ) → InHandler empty_tlb (loaded lo0 lo1) 0x4abc
unfolding read tlb_registers reserved_bits set_slot write
loaded-InHandler lo0 lo1 = record { entry_hi = refl; mask = omega arith; entries = λ i. refl }

loaded-FirstHit : (lo0 lo1 : ℕ) → FirstHit (write_entry (loaded lo0 lo1) 5) 0x4abc 5
loaded-FirstHit lo0 lo1 =
    write_entry-FirstHit empty_tlb (loaded lo0 lo1) 0x4abc 5 (empty_tlb-NoHit 0x4abc)
      (loaded-InHandler lo0 lo1) (omega arith)

refill-resolves_example :
    let t = loaded 0x47 0x83 in
    let e = set_entry t.regs in
    Tlb.gva_to_gpa (write_entry t 5) 0x4abc store
    ≡ some (record {
      ok = true;
      address = bit_or (page_pfn 0x4abc e) (bit_and 0x4abc (shr (page_mask e) 1));
      regs = t.regs;
      context = set_prot (page_d 0x4abc e) store;
    })
unfolding set_entry odd_page read tlb_registers
refill-resolves_example =
    refill-resolves empty_tlb (loaded 0x47 0x83) 0x4abc 5 store (empty_tlb-NoHit 0x4abc)
      (loaded-InHandler 0x47 0x83) (omega arith) (omega arith) (inr (omega arith))

tlb_probe_lem_example :
    Found (write_entry (loaded 0x47 0x83) 5) (tlb_probe (write_entry (loaded 0x47 0x83) 5))
    ⊎ NotFound (write_entry (loaded 0x47 0x83) 5) (tlb_probe (write_entry (loaded 0x47 0x83) 5))
tlb_probe_lem_example = tlb_probe_lem (write_entry (loaded 0x47 0x83) 5)

abbrev wired_tlb : Tlb
wired_tlb = record { regs = mode_regs 0; entry = λ i. no_entry }

-- What another entry has left in the registers by the time of `tlbr`.
abbrev overwritten : Regs
overwritten i = if i == 0 then (loaded 0x47 0x83).regs 0 else 0x1234_5678

tlb_read-write_index_example :
    let t = loaded 0x47 0x83 in
    (tlb_read (record (tlb_write_index t) { regs = overwritten })).regs 16 ≡ (
      if 16 == slot 10 0
      then bit_or
          (bit_and (bit_and (read t.regs 10 0) (not64 min_page_mask)) seg_mask)
          (bit_and (read t.regs 10 0) 0xff)
      else if 16 == slot 5 0 || 16 == slot 2 0 || 16 == slot 3 0
      then t.regs 16
      else overwritten 16)
unfolding get_index tlb_registers
tlb_read-write_index_example = tlb_read-write_index (loaded 0x47 0x83) overwritten 16 refl

verify_priviliges_user_iff_example : (verify_priviliges (mode_regs 2) 0x8000_0000 ≡ true) ↔ (
    (IsCompatible 0x8000_0000 × (0x8000_0000 % 2 ^ 32 < 2 ^ 31))
    ⊎ ((2 ^ 32 ≤ 0x8000_0000) × (0x8000_0000 < 2 ^ 40)))
unfolding get_ksu
verify_priviliges_user_iff_example =
    verify_priviliges_user_iff (mode_regs 2) 0x8000_0000 refl (omega arith)

gva_to_gpa_unmapped_example :
    (Mmu.gva_to_gpa empty_tlb (2 ^ 64 - 2 ^ 31 + 0x2000_0010) load
      ≡ some (record {
        ok = true;
        address = 0x2000_0010 % 2 ^ 29;
        regs = kernel_regs;
        context = set_prot access_write load;
      }))
    × (Mmu.gva_to_gpa empty_tlb (2 ^ 63 + 0x1234) load
        ≡ some (record {
          ok = true;
          address = 0x1234 % 2 ^ 49;
          regs = kernel_regs;
          context = set_prot access_write load;
        }))
unfolding get_ksu
gva_to_gpa_unmapped_example =
    gva_to_gpa_unmapped empty_tlb load 0x2000_0010 0x1234 refl (omega arith) (omega arith)

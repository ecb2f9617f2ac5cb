-- ===== src/Mmu/Segments.antt =====
-- The unmapped segments, refused addresses, and the translation used for loading files.
use type_ii_hypervisor_code.Common.{
  ℕ, ◌+◌, ◌-◌, ◌/◌, ◌%◌, ◌^◌, ◌≤◌, ◌<◌, ◌≡◌, ◌⊎◌, true, arith, some, inl, inr,
}
use type_ii_hypervisor_code.Word.Masks.{and-low_mask}
use type_ii_hypervisor_code.Cp0.{Regs, get_ksu}
use type_ii_hypervisor_code.Context.{Context, access_write, set_prot}
use type_ii_hypervisor_code.Tlb.{Tlb}
use type_ii_hypervisor_code.Mmu.{
  verify_priviliges, find_address_space_size, get_segment_number, look_static_translation,
  look_static_translation_32bit, look_static_translation_64bit, translate, gva_to_gpa,
  gva_to_gpa_for_fileloading,
}

kseg-static :
    (regs : Regs) (x : ℕ)
    → x < 2 ^ 30
    → let gva = 2 ^ 64 - 2 ^ 31 + x in look_static_translation regs gva ≡ some (x % 2 ^ 29)
unfolding look_static_translation look_static_translation_32bit find_address_space_size
kseg-static regs x h =
    let gva = 2 ^ 64 - 2 ^ 31 + x in
    ground (arith, and-low_mask 3 (gva / 2 ^ 29), and-low_mask 29 gva)

xkphys-static :
    (regs : Regs) (y : ℕ)
    → y < 2 ^ 62
    → look_static_translation regs (2 ^ 63 + y) ≡ some (y % 2 ^ 49)
unfolding look_static_translation look_static_translation_64bit find_address_space_size
xkphys-static regs y h = ground (arith, and-low_mask 49 (2 ^ 63 + y))

kernel_allowed :
    (regs : Regs) (gva : ℕ)
    → get_ksu regs ≡ 0
    → (2 ^ 64 - 2 ^ 31 ≤ gva) ⊎ ((2 ^ 63 ≤ gva) × (gva < 2 ^ 63 + 2 ^ 62))
    → gva < 2 ^ 64
    → verify_priviliges regs gva ≡ true
unfolding verify_priviliges
kernel_allowed regs gva kernel where_ h = ground arith

-- In kernel mode the addresses of kseg0 and kseg1, 2 ^ 64 - 2 ^ 31 + x with x < 2 ^ 30, translate
-- to x modulo 2 ^ 29, and those of xkphys, 2 ^ 63 + y with y < 2 ^ 62, to y modulo 2 ^ 49: with no
-- lookup, with write permission, and with the registers unchanged.
pub gva_to_gpa_unmapped :
    (t : Tlb) (context : Context) (x y : ℕ)
    → get_ksu t.regs ≡ 0
    → x < 2 ^ 30
    → y < 2 ^ 62
    → (gva_to_gpa t (2 ^ 64 - 2 ^ 31 + x) context
        ≡ some (record {
          ok = true;
          address = x % 2 ^ 29;
          regs = t.regs;
          context = set_prot access_write context;
        }))
      × (gva_to_gpa t (2 ^ 63 + y) context
          ≡ some (record {
            ok = true;
            address = y % 2 ^ 49;
            regs = t.regs;
            context = set_prot access_write context;
          }))
unfolding gva_to_gpa translate
gva_to_gpa_unmapped t context x y kernel h h' = (
  rw (
    kernel_allowed t.regs (2 ^ 64 - 2 ^ 31 + x) kernel (inl (omega arith)) (omega arith),
    kseg-static t.regs x h,
  ),
  rw (
    kernel_allowed t.regs (2 ^ 63 + y) kernel (inr (omega arith, omega arith)) (omega arith),
    xkphys-static t.regs y h',
  ),
)

file-static :
    (regs : Regs) (gva : ℕ) {p : ℕ}
    → gva_to_gpa_for_fileloading gva ≡ some p
    → look_static_translation regs gva ≡ some p
unfolding gva_to_gpa_for_fileloading look_static_translation look_static_translation_32bit
    look_static_translation_64bit find_address_space_size get_segment_number
file-static regs gva e = ground arith

file_allowed :
    (regs : Regs) (gva : ℕ) {p : ℕ}
    → get_ksu regs ≡ 0
    → gva < 2 ^ 64
    → gva_to_gpa_for_fileloading gva ≡ some p
    → verify_priviliges regs gva ≡ true
unfolding verify_priviliges gva_to_gpa_for_fileloading find_address_space_size get_segment_number
file_allowed regs gva kernel h e = ground arith

-- In kernel mode, for an address of 64 bits: where the translation for loading files gives an
-- address, the kernel's translation gives the same one.
pub gva_to_gpa-fileloading :
    (t : Tlb) (gva : ℕ) (context : Context) {p : ℕ}
    → get_ksu t.regs ≡ 0
    → gva < 2 ^ 64
    → gva_to_gpa_for_fileloading gva ≡ some p
    → gva_to_gpa t gva context
      ≡ some (record {
        ok = true;
        address = p;
        regs = t.regs;
        context = set_prot access_write context;
      })
unfolding gva_to_gpa translate
gva_to_gpa-fileloading t gva context kernel h e =
    rw (file_allowed t.regs gva kernel h e, file-static t.regs gva e)

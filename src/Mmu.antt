-- ===== src/Mmu.antt =====
-- MMU_IPE.h and MMU_IPE.cpp: from guest virtual to guest physical addresses. The `Processor_IPE`
-- that the source passes is here its `Tlb`, which holds the registers. The two functions whose
-- `if .. else if` has no last `else` are called with BIT_32 or BIT_64 only.
pub mod Privileges
pub mod Segments
use mathlib.Core.Option
use type_ii_hypervisor_code.Common.{
  ℕ, ◌+◌, ◌*◌, ◌-◌, ◌^◌, ◌%◌, ◌/◌, ◌<◌, bit_and, if◌then◌else◌, Bool, true, false, not, ◌&&◌, ◌||◌,
  ◌==◌, ltb, Option, none, some,
}
use type_ii_hypervisor_code.Word.{has, shr, u32}
use type_ii_hypervisor_code.Cp0.{Regs, read, get_ksu, user_mode, supervisor_mode}
use type_ii_hypervisor_code.Context.{Context, access_write, get_ldst, set_prot}
use type_ii_hypervisor_code.Exception.{adel, perform_exception}
use type_ii_hypervisor_code.Tlb
use type_ii_hypervisor_code.Tlb.{Tlb, Translated}

abbrev pub bit_32 : ℕ
bit_32 = 0

abbrev pub bit_64 : ℕ
bit_64 = 1

abbrev pub useg_32bit : ℕ
useg_32bit = 0

abbrev pub kseg0_32bit : ℕ
kseg0_32bit = 4

abbrev pub kseg1_32bit : ℕ
kseg1_32bit = 5

abbrev pub sseg_32bit : ℕ
sseg_32bit = 6

abbrev pub xuseg_64bit : ℕ
xuseg_64bit = 0

abbrev pub xsseg_64bit : ℕ
xsseg_64bit = 1

abbrev pub xkphys_64bit : ℕ
xkphys_64bit = 2

abbrev pub xkseg_64bit : ℕ
xkseg_64bit = 3

abbrev pub bit32_address_mask : ℕ
bit32_address_mask = 0x1fff_ffff

abbrev pub bit64_address_mask : ℕ
bit64_address_mask = 0x1_ffff_ffff_ffff

unfoldable pub find_address_space_size : ℕ → ℕ
find_address_space_size addr =
    let top32 = u32 (shr addr 32) in if top32 == 0xffff_ffff || top32 == 0 then bit_32 else bit_64

unfoldable pub get_segment_number : ℕ → ℕ → ℕ
get_segment_number addr size =
    if size == bit_32
    then (let region = bit_and (shr addr 29) 7 in
        if ltb region kseg0_32bit then useg_32bit else region)
    else u32 (shr addr 62)

-- The tests are those of the source, its `||` included.
unfoldable pub verify_priviliges : Regs → ℕ → Bool
unfolding find_address_space_size get_segment_number
verify_priviliges regs addr =
    let mode = get_ksu regs in
    let size = find_address_space_size addr in
    let segment = get_segment_number addr size in
    if size == bit_32
    then (if mode == user_mode && not (segment == useg_32bit)
        then false
        else not (
            mode == supervisor_mode
            && (not (segment == sseg_32bit) || not (segment == useg_32bit))))
    else (if mode == user_mode && not (segment == xuseg_64bit)
        then false
        else if mode == supervisor_mode
            && (not (segment == xsseg_64bit) || not (segment == xuseg_64bit))
        then false
        else if segment == xuseg_64bit && ltb 0xff_ffff_ffff addr
        then false
        else if segment == xsseg_64bit && ltb 0x4000_00ff_ffff_ffff addr
        then false
        else not (segment == xkseg_64bit && ltb 0xc000_00ff_7fff_ffff addr))

-- `none` is TLB_REQUIRED; TLB_NOT_REQUIRED comes with the physical address.
unfoldable pub look_static_translation_32bit : Regs → ℕ → Option ℕ
unfolding get_segment_number has read
look_static_translation_32bit regs vaddr =
    let segment = get_segment_number vaddr bit_32 in
    if segment == kseg0_32bit || segment == kseg1_32bit
    then some (bit_and vaddr bit32_address_mask)
    else if segment == useg_32bit && has (read regs 12 0) 4
    then some (bit_and vaddr 0xffff_ffff)
    else none

unfoldable pub look_static_translation_64bit : Regs → ℕ → Option ℕ
unfolding get_segment_number has read
look_static_translation_64bit regs vaddr =
    let segment = get_segment_number vaddr bit_64 in
    if segment == xkphys_64bit
    then some (bit_and vaddr bit64_address_mask)
    else if segment == xuseg_64bit && has (read regs 12 0) 4
    then some (bit_and vaddr bit64_address_mask)
    else none

unfoldable pub look_static_translation : Regs → ℕ → Option ℕ
look_static_translation regs gva =
    if find_address_space_size gva == bit_32
    then look_static_translation_32bit regs gva
    else look_static_translation_64bit regs gva

-- The end of `GVAtoGPA`, from what the static translation gave.
unfoldable pub translate : Tlb → ℕ → Context → Option ℕ → Option Translated
translate t gva context (some phys_addr) = some (record {
  ok = true;
  address = phys_addr;
  regs = t.regs;
  context = set_prot access_write context;
})
translate t gva context none = Tlb.gva_to_gpa t gva context

unfoldable pub gva_to_gpa : Tlb → ℕ → Context → Option Translated
unfolding look_static_translation translate get_ldst
gva_to_gpa t gva context =
    if not (verify_priviliges t.regs gva)
    then Option.map (λ r. record { ok = false; address = r.0; regs = r.1; context = context })
        (perform_exception t.regs gva (adel + get_ldst context) context)
    else translate t gva context (look_static_translation t.regs gva)

-- `none` is the result false.
unfoldable pub gva_to_gpa_for_fileloading : ℕ → Option ℕ
unfolding find_address_space_size get_segment_number
gva_to_gpa_for_fileloading gva =
    let size = find_address_space_size gva in
    let segment = get_segment_number gva size in
    if size == bit_32
    then (if segment == kseg1_32bit then some (bit_and gva bit32_address_mask) else none)
    else (if segment == xkphys_64bit then some (bit_and gva bit64_address_mask) else none)

-- ===== src/MemoryMap.antt =====
-- GPAtoHVATranslator_IPE.h, GPAtoHVATranslator_IPE.cpp and GPAMap_IPE.h: from guest physical to
-- host virtual addresses. `GPAtoHVAMap_IPE` is a function of the key. `mmap` is an argument: from
-- the number of earlier calls and a length, the address it gives or `none` for MAP_FAILED. The
-- argument `negative` is what the conversion of a negative double to `uint64_t` gives, which the
-- language leaves open.
pub mod Sections
pub mod Keys
pub mod Ram
pub mod Unmapped
pub mod Threads
use type_ii_hypervisor_code.Common.{
  ℕ, zero, suc, ◌+◌, ◌*◌, ◌-◌, ◌^◌, ◌%◌, ◌/◌, bit_and, if◌then◌else◌, Bool, true, false, not, ◌&&◌,
  ◌==◌, ltb, leb, Option, none, some, List, [], ◌∷◌, Result, and_then,
}
use type_ii_hypervisor_code.Word.{shr, u32, add64}
use Sections.{
  init_map_array, max_section_size, max_io_section_size, dr0_dram, boot_bus, dr1_dram, dr2_dram,
  io_boot_bus,
}

pub record MapVal : Type 0 where
  pub hva : ℕ
  pub size : ℕ
  pub map_idx : ℕ

pub record Regions : Type 0 where
  pub gpa_map : ℕ → Option MapVal
  pub calls : ℕ  -- of mmap

abbrev pub io_addr_base_mask : ℕ
io_addr_base_mask = 0xffff_ffff_f800_0000

abbrev pub io_addr_offset_mask : ℕ
io_addr_offset_mask = 0x07ff_ffff

abbrev pub mem_addr_base_mask : ℕ
mem_addr_base_mask = 0xffff_ffff_f000_0000

abbrev pub mem_addr_offset_mask : ℕ
mem_addr_offset_mask = 0x0fff_ffff

-- The base and the offset.
unfoldable pub get_base_and_offset : ℕ → ℕ × ℕ
get_base_and_offset gpa =
    if not (shr gpa 48 == 1)
    then (bit_and gpa mem_addr_base_mask, bit_and gpa mem_addr_offset_mask)
    else (bit_and gpa io_addr_base_mask, bit_and gpa io_addr_offset_mask)

abbrev no_val : MapVal
no_val = record { hva = 0; size = 0; map_idx = 0 }

-- The entry found, or one with the address 0.
abbrev pub val_or_zero : Option MapVal → MapVal
val_or_zero none = no_val
val_or_zero (some v) = v

unfoldable pub translate_gpa_to_hva : Regions → ℕ → MapVal
translate_gpa_to_hva r key = val_or_zero (r.gpa_map key)

abbrev pub Mmap : Type 0
Mmap = ℕ → ℕ → Option ℕ

abbrev pub mapped : Option ℕ → Regions → Result (ℕ × Regions)
mapped none r = Result.exited
mapped (some dest) r = Result.ok (dest, record r { calls = suc r.calls })

unfoldable pub alloc_mem_region : Mmap → Regions → ℕ → Result (ℕ × Regions)
alloc_mem_region mmap r size = mapped (mmap r.calls size) r

-- `GPAtoHVAMap_IPE[key] = val`.
abbrev pub set_val : Regions → ℕ → MapVal → Regions
set_val r key val = record r { gpa_map = λ k. if k == key then some val else r.gpa_map k }

unfoldable pub add_mem_region : Mmap → Regions → ℕ → ℕ → Result Regions
unfolding alloc_mem_region and_then
add_mem_region mmap r size key =
    and_then (alloc_mem_region mmap r size)
      (λ a. Result.ok (set_val a.1 key (record { hva = a.0; size = u32 size; map_idx = dr2_dram })))

-- `ending_address - starting_address + 1`, converted.
unfoldable pub section_size : ℕ → ℕ × ℕ → ℕ
section_size negative (start, end_) = if leb start (end_ + 1) then end_ + 1 - start else negative

unfoldable pub section_at : List (ℕ × ℕ) → ℕ → ℕ × ℕ
section_at [] i = (0, 0)
section_at (s ∷ rest) zero = s
section_at (s ∷ rest) (suc i) = section_at rest i

-- The loop of `find_index` over the sections from `i` on; `none` when it ends by its bound.
unfoldable pub find_section : ℕ → ℕ → ℕ → ℕ → Option (ℕ × ℕ)
find_section negative addr zero i = none
find_section negative addr (suc left) i =
    let s = section_at init_map_array i in
    let rest = find_section negative addr left (i + 1) in
    if leb s.0 addr && leb addr s.1 then some (i, section_size negative s) else rest

-- The index and the size.
unfoldable pub find_index : ℕ → ℕ → Option (ℕ × ℕ)
find_index negative addr = find_section negative addr 47 io_boot_bus

abbrev pub io_size : ℕ → ℕ
io_size size = if ltb max_io_section_size size then max_io_section_size else size

-- `add_IO_Region` from what `find_index` gave.
unfoldable pub add_io_region_at : Mmap → Regions → ℕ → Option (ℕ × ℕ) → Result (ℕ × Regions)
unfolding alloc_mem_region and_then
add_io_region_at mmap r key none = Result.undefined
add_io_region_at mmap r key (some (idx, size)) =
    and_then (alloc_mem_region mmap r (io_size size)) (λ a.
      Result.ok
        (a.0, set_val a.1 key (record { hva = a.0; size = u32 (io_size size); map_idx = u32 idx })))

unfoldable pub add_io_region : ℕ → Mmap → Regions → ℕ → Result (ℕ × Regions)
unfolding add_io_region_at
add_io_region negative mmap r key = add_io_region_at mmap r key (find_index negative key)

unfoldable pub gpa_to_hva : ℕ → Mmap → Regions → ℕ → Result (ℕ × Regions)
unfolding get_base_and_offset translate_gpa_to_hva add_io_region and_then
gpa_to_hva negative mmap r addr =
    let (key, offset) = get_base_and_offset addr in
    let base = (translate_gpa_to_hva r key).hva in
    if base == 0
    then and_then (add_io_region negative mmap r key) (λ a. Result.ok (add64 a.0 offset, a.1))
    else Result.ok (add64 base offset, r)

-- The loop over the chunks of DR2; `fuel` at least `ramsize` is enough.
unfoldable pub dr2_loop : ℕ → Mmap → Regions → ℕ → ℕ → Result Regions
dr2_loop zero mmap r ramsize alloc_offset = Result.ok r
dr2_loop (suc fuel) mmap r ramsize alloc_offset =
    if ramsize == 0
    then Result.ok r
    else (let sec_size = if ltb max_section_size ramsize then max_section_size else ramsize in
        and_then
          (add_mem_region mmap r sec_size ((section_at init_map_array dr2_dram).0 + alloc_offset))
          (λ r'. dr2_loop fuel mmap r' (ramsize - sec_size) (alloc_offset + sec_size)))

-- The smaller of a section's size and the memory left.
abbrev pub at_most : ℕ → ℕ → ℕ
at_most sec_size ramsize = if ltb ramsize sec_size then ramsize else sec_size

-- The regions of `alloc_DRAM`: the boot bus, `s₀` bytes of DR0, `s₁` of DR1, and DR2 in chunks.
unfoldable pub alloc_sections : ℕ → Mmap → Regions → ℕ → ℕ → ℕ → Result Regions
alloc_sections negative mmap r s₀ s₁ left =
    let bus = section_at init_map_array boot_bus in
    and_then (add_mem_region mmap r (section_size negative bus) bus.0) (λ r₁.
      and_then (add_mem_region mmap r₁ s₀ (section_at init_map_array dr0_dram).0) (λ r₂.
        and_then (add_mem_region mmap r₂ s₁ (section_at init_map_array dr1_dram).0)
          (λ r₃. dr2_loop left mmap r₃ left 0)))

unfoldable pub alloc_dram : ℕ → Mmap → Regions → ℕ → Result Regions
alloc_dram negative mmap r size =
    let room = λ (i : ℕ). section_size negative (section_at init_map_array i) in
    let s₀ = at_most (room dr0_dram) size in
    let s₁ = at_most (room dr1_dram) (size - s₀) in
    alloc_sections negative mmap r s₀ s₁ (size - s₀ - s₁)

-- The loop of `initialize_GPA_subsections` from section `i` on.
unfoldable pub io_loop : ℕ → Mmap → ℕ → ℕ → Regions → Result Regions
io_loop negative mmap zero i r = Result.ok r
io_loop negative mmap (suc left) i r =
    let s = section_at init_map_array i in
    let size = section_size negative s in
    if leb size max_section_size
    then and_then (add_mem_region mmap r size s.0) (λ r'. io_loop negative mmap left (i + 1) r')
    else io_loop negative mmap left (i + 1) r

unfoldable pub initialize_gpa_subsections : ℕ → Mmap → Regions → ℕ → Result Regions
initialize_gpa_subsections negative mmap r ram_size =
    and_then (alloc_dram negative mmap r ram_size) (λ r'. io_loop negative mmap 47 io_boot_bus r')

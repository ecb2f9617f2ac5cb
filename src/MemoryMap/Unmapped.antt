-- ===== src/MemoryMap/Unmapped.antt =====
-- `find_index`: addresses that belong to no section.
use type_ii_hypervisor_code.Common.{
  Result, and_then, ℕ, zero, suc, ltb, leb, ◌&&◌, ◌||◌, ◌+◌, ◌*◌, ◌^◌, ◌%◌, ◌/◌, ◌<◌, ◌≤◌, ◌≡◌,
  refl, ◌∙◌, Bool, true, arith, none,
}
use type_ii_hypervisor_code.MemoryMap.Sections.{init_map_array}
use type_ii_hypervisor_code.MemoryMap.{
  Regions, Mmap, get_base_and_offset, translate_gpa_to_hva, add_io_region, find_index, find_section,
  section_at, gpa_to_hva,
}
use type_ii_hypervisor_code.MemoryMap.Keys.{get_base_and_offset-eq}

-- The sections from `i` on that have no address from `lo` to before `hi`: all of them.
clear_of : ℕ → ℕ → ℕ → ℕ → Bool
clear_of lo hi zero i = true
clear_of lo hi (suc left) i =
    let s = section_at init_map_array i in
    (ltb s.1 lo || ltb s.1 s.0 || leb hi s.0) && clear_of lo hi left (i + 1)

find_section-none :
    (negative lo hi addr left i : ℕ)
    → clear_of lo hi left i ≡ true
    → lo ≤ addr
    → addr < hi
    → find_section negative addr left i ≡ none
unfolding clear_of find_section
find_section-none negative lo hi addr zero i clear p q = refl
find_section-none negative lo hi addr (suc left) i clear p q =
    let rest = find_section-none negative lo hi addr left (i + 1) (ground (arith, clear)) p q in
    rw rest (ground (arith, clear))

find_index_fau :
    (negative addr : ℕ)
    → 0x1_f000_0000_0000 ≤ addr
    → addr < 0x1_f010_0000_0000
    → find_index negative addr ≡ none
unfolding find_index clear_of section_at init_map_array
find_index_fau negative addr lo hi =
    find_section-none negative 0x1_f000_0000_0000 0x1_f010_0000_0000 addr 47 4 refl lo hi

-- The fetch-and-add unit's addresses, from 0x1f00000000000 to 0x1f00fffffffff, are in no section:
-- the table gives a start behind the end. The first access to one of its regions uses a value that
-- was not returned.
gpa_to_hva_fau :
    (negative : ℕ) (mmap : Mmap) (r : Regions) (addr : ℕ)
    → 0x1_f000_0000_0000 ≤ addr
    → addr < 0x1_f010_0000_0000
    → r.gpa_map (get_base_and_offset addr).0 ≡ none
    → gpa_to_hva negative mmap r addr ≡ Result.undefined
unfolding gpa_to_hva add_io_region translate_gpa_to_hva and_then
gpa_to_hva_fau negative mmap r addr lo hi new =
    let key : get_base_and_offset addr ≡ (addr / 2 ^ 27 * 2 ^ 27, addr % 2 ^ 27) =
      get_base_and_offset-eq addr (omega arith) ∙ ground arith in
    rw (
      new,
      find_index_fau negative (get_base_and_offset addr).0 (rw key (omega arith))
          (rw key (omega arith)),
    )

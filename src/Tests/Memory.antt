-- ===== src/Tests/Memory.antt =====
-- The guest's memory map and the containers at concrete inputs.
use type_ii_hypervisor_code.Common.{
  Result, ◌&&◌, ◌+◌, ◌*◌, ◌^◌, ◌<◌, ◌≡◌, refl, arith, ◌==◌, if◌then◌else◌, none, some,
}
use type_ii_hypervisor_code.MemoryMap.{MapVal, Regions, Mmap, get_base_and_offset, alloc_dram}
use type_ii_hypervisor_code.Word.{u32}
use type_ii_hypervisor_code.Block.{
  BlockCache, CacheVal, new_block, clear_block, current, update_index, get_container, put_in_cache,
  does_exist,
}
use type_ii_hypervisor_code.Block.Container.{push_first, push_first-container}
use type_ii_hypervisor_code.Block.Lookup.{place, does_exist-put}
use type_ii_hypervisor_code.MemoryMap.Ram.{Grants, alloc_dram-covers}

-- Regions far apart, in the order of the calls.
abbrev host : Mmap
host n size = if size == 0 then none else some (0x7f00_0000_0000 + n * 2 ^ 32)

host-Grants : Grants host
host-Grants = record {
  refuses = λ n. refl;
  grants = λ n size h. (0x7f00_0000_0000 + n * 2 ^ 32, ground arith);
}

abbrev no_regions : Regions
no_regions = record { gpa_map = λ k. none; calls = 0 }

-- The first access to the boot bus in the space of devices.
abbrev after_access : Regions
after_access = record {
  gpa_map = λ k.
      if k == 0x1_0000_0000_0000
      then some (record { hva = 0x7f00_0000_0000; size = 0x800_0000; map_idx = 4 })
      else none;
  calls = 1;
}

alloc_dram-covers_example :
    let (key, offset) = get_base_and_offset (2 ^ 29 + 0x1200_0000) in
    (r' : Regions) × (v : MapVal) × (alloc_dram 0 host no_regions (2 ^ 30) ≡ Result.ok r')
    × (r'.gpa_map key ≡ some v)
    × (offset < v.size)
alloc_dram-covers_example =
    alloc_dram-covers 0 host no_regions (2 ^ 30) 0x1200_0000 host-Grants (omega arith) (omega arith)
      (omega arith)

push_first-container_example :
    let after = push_first 3000 (λ i. i * 4) new_block in
    (after.current_size ≡ 3000)
    × (3000 < after.allocated_size)
    × (after.container 2047 ≡ u32 (2047 * 4))
push_first-container_example =
    push_first-container 3000 (λ i. i * 4) 2047 (omega arith) (omega arith)

abbrev no_block : CacheVal
no_block = record { key = 0; block_end_pc = 0; block = new_block; asid = 0 }

abbrev no_blocks : BlockCache
no_blocks = record { cache = λ i j. no_block; first_index = 0; second_index = 0 }

does_exist-put_example :
    let after =
      put_in_cache (get_container no_blocks 0x1_2000_0040) 0x1_2000_0040 0x1_2000_0080 5 in
    (does_exist after 0x1_2000_0040 5).1 ≡ (
      if place 0x1_2000_0040 == place 0x1_2000_0040
      then (if (0x1_2000_0040 == 0x1_2000_0040) && (5 == 5)
          then some (record {
            key = 0x1_2000_0040;
            block_end_pc = 0x1_2000_0080;
            asid = 5;
            block = clear_block (current (update_index no_blocks 0x1_2000_0040)).block;
          })
          else none)
      else (does_exist no_blocks 0x1_2000_0040 5).1)
does_exist-put_example =
    does_exist-put no_blocks 0x1_2000_0040 0x1_2000_0080 5 0x1_2000_0040 5 (omega arith)

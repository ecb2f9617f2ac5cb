-- ===== src/Block/Lookup.antt =====
-- What the cache of containers finds.
use type_ii_hypervisor_code.Common.{
  ℕ, ◌^◌, ◌%◌, ◌/◌, ◌<◌, ◌≡◌, arith, ◌==◌, if◌then◌else◌, ◌&&◌, none, some,
}
use type_ii_hypervisor_code.Word.Masks.{and-low_mask}
use type_ii_hypervisor_code.Block.{
  BlockCache, clear_block, does_exist, get_container, put_in_cache, update_index, current,
}

-- The place of a key: 13 bits of the address of an instruction.
abbrev pub place : ℕ → ℕ
place key = key / 4 % 2 ^ 13

-- For an address space number below 256: after a block is put for `gva` in the container that was
-- handed out for `gva`, a lookup of `gva` with its address space finds the emptied container with
-- the end given, a lookup of any other key or address space in the same place finds nothing, and
-- any other lookup finds what it found before.
pub does_exist-put :
    (c : BlockCache) (gva end_pc asid key asid' : ℕ)
    → asid < 2 ^ 8
    → let after = put_in_cache (get_container c gva) gva end_pc asid in
      (does_exist after key asid').1 ≡ (
        if place key == place gva
        then (if (key == gva) && (asid' == asid)
            then some (record {
              key = gva;
              block_end_pc = end_pc;
              asid = asid;
              block = clear_block (current (update_index c gva)).block;
            })
            else none)
        else (does_exist c key asid').1)
unfolding does_exist get_container put_in_cache
does_exist-put c gva end_pc asid key asid' small = ground (
  arith,
  and-low_mask 7 (key / 4),
  and-low_mask 6 (key / 512),
  and-low_mask 7 (gva / 4),
  and-low_mask 6 (gva / 512),
)

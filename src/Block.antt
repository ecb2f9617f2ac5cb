-- ===== src/Block.antt =====
-- TranslationBlock.h and TranslationBlock.cpp, the container of translated instructions, and
-- TranslatedBlockCache_IPE.h and .cpp, the cache of containers. A container's memory is a function
-- of the word's index; the write position is an index into it. `fresh` is the memory that `mmap`
-- gives, all zero for an anonymous mapping; the failure of `mmap`, which ends the process, and
-- `mprotect` are left out.
pub mod Container
pub mod Lookup
use type_ii_hypervisor_code.Common.{
  ℕ, ◌+◌, ◌*◌, ◌-◌, ◌^◌, ◌%◌, ◌/◌, bit_and, if◌then◌else◌, Bool, not, ◌||◌, ◌==◌, ltb, leb, Option,
  none, some,
}
use type_ii_hypervisor_code.Word.{shr, u8, u32}

abbrev pub initial_block_size : ℕ
initial_block_size = 1024 * 8

abbrev pub ins_size : ℕ
ins_size = 4

pub record TranslationBlock : Type 0 where
  pub container : ℕ → ℕ
  pub current_location : ℕ
  pub current_size : ℕ
  pub allocated_size : ℕ

abbrev pub fresh : ℕ → ℕ
fresh i = 0

unfoldable pub new_block : TranslationBlock
new_block = record {
  container = fresh;
  current_location = 0;
  current_size = 0;
  allocated_size = initial_block_size / ins_size;
}

-- A container twice as large, with a copy of the words allocated so far.
unfoldable pub expand_block : TranslationBlock → TranslationBlock
expand_block b = record b {
  container = λ i. if ltb i b.allocated_size then b.container i else fresh i;
  allocated_size = u32 (b.allocated_size * 2);
}

unfoldable pub push_back : TranslationBlock → ℕ → TranslationBlock
unfolding expand_block
push_back b value =
    let b' : TranslationBlock = record b {
      container = λ i. if i == b.current_location then u32 value else b.container i;
      current_location = b.current_location + 1;
      current_size = u32 (b.current_size + 1);
    } in
    if leb b'.allocated_size b'.current_size then expand_block b' else b'

-- `memset` takes a number of bytes: a quarter of the words are cleared. A word is cleared in part
-- at the end; its bytes are in the host's order, big-endian.
abbrev pub clear_bytes : ℕ → (ℕ → ℕ) → ℕ → ℕ
clear_bytes bytes words i =
    if leb ((i + 1) * 4) bytes
    then 0
    else if ltb (i * 4) bytes
    then words i % 2 ^ (32 - 8 * (bytes - i * 4))
    else words i

unfoldable pub clear_block : TranslationBlock → TranslationBlock
clear_block b =
    if ltb (initial_block_size / ins_size) b.allocated_size then new_block else record b {
      container = clear_bytes b.current_size b.container;
      current_size = 0;
      current_location = 0;
    }

-- One entry of the cache.
pub record CacheVal : Type 0 where
  pub key : ℕ
  pub block_end_pc : ℕ
  pub block : TranslationBlock
  pub asid : ℕ

pub record BlockCache : Type 0 where
  pub cache : ℕ → ℕ → CacheVal
  pub first_index : ℕ
  pub second_index : ℕ

unfoldable pub update_index : BlockCache → ℕ → BlockCache
update_index c key = record c {
  first_index = bit_and (shr key 2) (2 ^ 7 - 1);
  second_index = bit_and (shr key 9) (2 ^ 6 - 1);
}

-- `this->cache[firstIndex][secondIndex]`.
abbrev pub current : BlockCache → CacheVal
current c = c.cache c.first_index c.second_index

abbrev pub set_current : BlockCache → CacheVal → BlockCache
set_current c v = record c {
  cache = λ i j.
      if i == c.first_index then (if j == c.second_index then v else c.cache i j) else c.cache i j;
}

unfoldable pub does_exist : BlockCache → ℕ → ℕ → BlockCache × Option CacheVal
unfolding update_index
does_exist c search_key asid =
    let c' = update_index c search_key in
    let v = current c' in
    (c', if not (v.key == search_key) || not (v.asid == asid) then none else some v)

-- The block is emptied in its place in the cache.
unfoldable pub get_container : BlockCache → ℕ → BlockCache
unfolding update_index
get_container c gva =
    let c' = update_index c gva in
    let v = current c' in set_current c' (record v { block = clear_block v.block })

unfoldable pub put_in_cache : BlockCache → ℕ → ℕ → ℕ → BlockCache
put_in_cache c new_search_key end_pc asid =
    let v = current c in
    set_current c (record v { key = new_search_key; block_end_pc = end_pc; asid = u8 asid })

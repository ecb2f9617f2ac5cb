-- ===== src/AddrCache.antt =====
-- AddrTranslationCache.h and .cpp: a direct-mapped cache of 128 translated pages, a function of
-- the index. The constructor leaves the array as it is. `usagearray` is never written.
pub mod Laws
use type_ii_hypervisor_code.Common.{
  ℕ, ◌+◌, ◌*◌, ◌-◌, ◌^◌, ◌%◌, ◌/◌, bit_and, if◌then◌else◌, Bool, not, ◌||◌, ◌==◌, ltb,
}
use type_ii_hypervisor_code.Word.{shr, add64, sub64}
use type_ii_hypervisor_code.Context.{Context, access_read, get_ldst}

pub record CacheEntry : Type 0 where
  pub gva : ℕ
  pub hva : ℕ
  pub prot : ℕ

abbrev pub Cache : Type 0
Cache = ℕ → CacheEntry

abbrev pub ins_cache_size : ℕ
ins_cache_size = 128

abbrev pub gva_base_mask : ℕ
gva_base_mask = 0xffff_ffff_ffff_f000

unfoldable pub get_cache_index : ℕ → ℕ
get_cache_index gva = bit_and (shr gva 12) (ins_cache_size - 1)

-- The returned flag and `*HVA`, which is written in every case.
unfoldable pub check_cache : Cache → ℕ → Context → Bool × ℕ
unfolding get_cache_index get_ldst
check_cache cache gva context =
    let base = bit_and gva gva_base_mask in
    let offset = sub64 gva base in
    let e = cache (get_cache_index base) in
    (not (not (e.gva == base) || ltb e.prot (get_ldst context)), add64 e.hva offset)

unfoldable pub update_cache : Cache → ℕ → ℕ → ℕ → Cache
unfolding get_cache_index
update_cache cache gva hva prot i =
    let base = bit_and gva gva_base_mask in
    let offset = sub64 gva base in
    if i == get_cache_index base
    then record { gva = base; hva = sub64 hva offset; prot = prot }
    else cache i

unfoldable pub clear_cache : Cache → Cache
clear_cache cache i =
    if ltb i ins_cache_size then record { gva = 1; hva = 0; prot = access_read } else cache i

-- ===== src/Tests/Caches.antt =====
-- The address translation cache at concrete inputs.
use type_ii_hypervisor_code.Common.{ℕ, ◌+◌, ◌*◌, ◌%◌, ◌^◌, ◌≤◌, ◌≡◌, refl, arith}
use type_ii_hypervisor_code.Context.{Context, get_ldst}
use type_ii_hypervisor_code.AddrCache.{Cache, check_cache, update_cache, clear_cache}
use type_ii_hypervisor_code.AddrCache.Laws.{
  page, Agrees, clear_cache-Agrees, update_cache-Agrees, check_cache-Agrees,
}

abbrev blank : Cache
blank i = record { gva = 0; hva = 0; prot = 0 }

abbrev load : Context
load = record { loadstore = 0; pc = 0; write_data = 0 }

abbrev target : ℕ → ℕ
target p = 0x7f00_0000_0000 + p * 4096

abbrev rights : ℕ → ℕ
rights p = 1

filled-Agrees : Agrees target rights (update_cache (clear_cache blank) 0x5010 0x7f00_0000_5010 1)
filled-Agrees =
    update_cache-Agrees target rights (clear_cache blank) 0x5010 0x7f00_0000_5010 1
      (clear_cache-Agrees target rights blank) (omega arith) (omega arith) (omega arith)

update_cache-Agrees_example : Agrees target rights (
    update_cache
      (update_cache (clear_cache blank) 0x5010 0x7f00_0000_5010 1)
      0x8_5ff8
      0x7f00_0008_5ff8
      0)
update_cache-Agrees_example =
    update_cache-Agrees target rights (update_cache (clear_cache blank) 0x5010 0x7f00_0000_5010 1)
      0x8_5ff8 0x7f00_0008_5ff8 0 filled-Agrees (omega arith) (omega arith) (omega arith)

check_cache-Agrees_example :
    let cache = update_cache (clear_cache blank) 0x5010 0x7f00_0000_5010 1 in
    ((check_cache cache 0x5020 load).1 ≡ (target (page 0x5020) + 0x5020 % 4096) % 2 ^ 64)
    × (get_ldst load ≤ rights (page 0x5020))
unfolding check_cache update_cache
check_cache-Agrees_example =
    check_cache-Agrees target rights (update_cache (clear_cache blank) 0x5010 0x7f00_0000_5010 1)
      0x5020 load filled-Agrees (omega arith) refl

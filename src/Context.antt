-- ===== src/Context.antt =====
-- Context_IPE.h: the context of the current instruction. The object holds pointers; `prot` is set
-- to the `loadstore` pointer, so both name one cell: `set_prot` overwrites what `get_ldst` reads.
use type_ii_hypervisor_code.Common.{ℕ}

-- What the pointers `loadstore` (and `prot`), `PC` and `writeData` point to.
pub record Context : Type 0 where
  pub loadstore : ℕ
  pub pc : ℕ
  pub write_data : ℕ

abbrev pub access_read : ℕ
access_read = 0

abbrev pub access_write : ℕ
access_write = 1

unfoldable pub get_ldst : Context → ℕ
get_ldst c = c.loadstore

unfoldable pub get_pc : Context → ℕ
get_pc c = c.pc

unfoldable pub get_prot : Context → ℕ
get_prot c = c.loadstore

unfoldable pub get_write_data : Context → ℕ
get_write_data c = c.write_data

unfoldable pub set_prot : ℕ → Context → Context
set_prot prot c = record c { loadstore = prot }

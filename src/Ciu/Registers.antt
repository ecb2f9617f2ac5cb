-- ===== src/Ciu/Registers.antt =====
-- CIU.h and `setMappings`: where the registers lie, as offsets in 64-bit words.
use type_ii_hypervisor_code.Common.{ℕ, ◌+◌, ◌*◌, ◌==◌, if◌then◌else◌}
use type_ii_hypervisor_code.Word.{not64, shl}

abbrev pub Memory : Type 0
Memory = ℕ → ℕ

abbrev pub poke : Memory → ℕ → ℕ → Memory
poke mem i v j = if j == i then v else mem j

abbrev pub int_sum0 : ℕ → ℕ
int_sum0 i = i

abbrev pub int_en0 : ℕ → ℕ
int_en0 i = 64 + i * 2

abbrev pub int_sum4 : ℕ → ℕ
int_sum4 i = 384 + i

abbrev pub int_en4_0 : ℕ → ℕ
int_en4_0 i = 400 + i

abbrev pub mbox_set : ℕ → ℕ
mbox_set i = 192 + i

abbrev pub mbox_clr : ℕ → ℕ
mbox_clr i = 208 + i

abbrev pub en0_w1c : ℕ → ℕ
en0_w1c i = 1088 + i * 2

abbrev pub en4_0_w1c : ℕ → ℕ
en4_0_w1c i = 1424 + i * 2

abbrev pub en0_w1s : ℕ → ℕ
en0_w1s i = 3136 + i * 2

abbrev pub en4_0_w1s : ℕ → ℕ
en4_0_w1s i = 3472 + i * 2

abbrev pub pp_rst : ℕ
pp_rst = 224

abbrev pub nmi : ℕ
nmi = 227

abbrev pub fuse : ℕ
fuse = 229

-- What `setMappings` writes; `~(~0UL << numcores)` has one bit for each core.
unfoldable pub set_mappings : Memory → ℕ → Memory
set_mappings mem num_cores =
    poke (poke (poke mem pp_rst 0xffe) nmi 0) fuse (not64 (shl (not64 0) num_cores))

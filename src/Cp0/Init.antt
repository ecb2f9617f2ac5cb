-- ===== src/Cp0/Init.antt =====
-- `initCP0`: the registers after reset, written without `ReservedBits`.
use type_ii_hypervisor_code.Common.{ℕ, List, [], ◌∷◌}
use type_ii_hypervisor_code.Cp0.{Regs, slot, set_slot}

-- Register, select, value, in the order of the source.
abbrev pub init_values : List (ℕ × ℕ × ℕ)
init_values =
    (0, 0, 0x0)
    ∷ (1, 0, 0x3f)
    ∷ (2, 0, 0x0)
    ∷ (3, 0, 0x12_ebc6)
    ∷ (4, 0, 0x0)
    ∷ (5, 0, 0x0)
    ∷ (5, 1, 0x0)
    ∷ (6, 0, 0x0)
    ∷ (7, 0, 0x0)
    ∷ (8, 0, 0x0)
    ∷ (9, 0, 0x0)
    ∷ (10, 0, 0xc001_ffff_ffff_e000)
    ∷ (11, 0, 0x0)
    ∷ (12, 0, 0x0040_0004)
    ∷ (12, 1, 0x0)
    ∷ (12, 2, 0x0)
    ∷ (13, 0, 0x0)
    ∷ (14, 0, 0x0)
    ∷ (15, 0, 0x000d_0408)
    ∷ (15, 1, 0xffff_ffff_8000_0000)
    ∷ (16, 0, 0xffff_ffff_8000_c48a)
    ∷ (16, 1, 0xffff_ffff_fe33_03da)
    ∷ (16, 2, 0xffff_ffff_8000_0467)
    ∷ (16, 3, 0x1080)
    ∷ (16, 4, 0x80)
    ∷ (18, 0, 0x0)
    ∷ (18, 1, 0x0)
    ∷ (19, 0, 0xffff_ffff_8000_0ff8)
    ∷ (19, 1, 0x0)
    ∷ (20, 0, 0x0)
    ∷ (23, 0, 0x4011_fc01)
    ∷ (24, 0, 0x0)
    ∷ (25, 0, 0xffff_ffff_c000_0000)
    ∷ (25, 2, 0x4000_0000)
    ∷ (25, 1, 0x0)
    ∷ (25, 3, 0x0)
    ∷ (30, 0, 0x1_2000_3a5c)
    ∷ (31, 0, 0x0)
    ∷ (27, 0, 0x0)
    ∷ (27, 1, 0x0)
    ∷ (28, 0, 0x0)
    ∷ (28, 2, 0xffff_ffff_ffff_ffff)
    ∷ (28, 1, 0xfe67_7ecf_deff_0ff0)
    ∷ (28, 3, 0xffff_ffff_ffff_ffff)
    ∷ (29, 2, 0x0)
    ∷ (29, 1, 0x0)
    ∷ (29, 3, 0x0)
    ∷ (9, 7, 0xb800_03f0)
    ∷ (11, 7, 0x4_6000)
    ∷ (9, 6, 0x0)
    ∷ (22, 0, 0x0)
    ∷ []

unfoldable pub store_all : Regs → List (ℕ × ℕ × ℕ) → Regs
unfolding set_slot
store_all regs [] = regs
store_all regs ((reg, sel, v) ∷ rest) = store_all (set_slot regs (slot reg sel) v) rest

unfoldable pub init_cp0 : Regs → Regs
unfolding store_all
init_cp0 regs = store_all regs init_values

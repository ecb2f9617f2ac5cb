-- ===== src/MemoryMap/Sections.antt =====
-- GPAMap_IPE.h: `init_map_array`, the first and last address of each section of the board. The
-- source keeps them as doubles; all are below 2 ^ 53, so they are exact.
use type_ii_hypervisor_code.Common.{ℕ, List, [], ◌∷◌}

abbrev pub max_section_size : ℕ
max_section_size = 0x1000_0000

abbrev pub max_io_section_size : ℕ
max_io_section_size = 0x800_0000

abbrev pub dr0_dram : ℕ
dr0_dram = 0

abbrev pub boot_bus : ℕ
boot_bus = 1

abbrev pub dr2_dram : ℕ
dr2_dram = 2

abbrev pub dr1_dram : ℕ
dr1_dram = 3

abbrev pub io_boot_bus : ℕ
io_boot_bus = 4

unfoldable pub init_map_array : List (ℕ × ℕ)
init_map_array =
    (0x0, 0xfff_ffff)
    ∷ (0x1000_0000, 0x1fff_ffff)
    ∷ (0x2000_0000, 0x3_ffff_ffff)
    ∷ (0x4_1000_0000, 0x4_1fff_ffff)
    ∷ (0x1_0000_0000_0000, 0x1_0000_ffff_ffff)
    ∷ (0x1_0700_0000_0000, 0x1_0700_0010_08ff)
    ∷ (0x1_1800_7000_0000, 0x1_1800_7000_1fff)
    ∷ (0x1_2800_0000_0000, 0x1_2800_47ff_ffff)
    ∷ (0x1_1800_0000_0000, 0x1_1800_0000_1fff)
    ∷ (0x1_1800_0800_0000, 0x1_1800_0800_1fff)
    ∷ (0x1_1800_2800_0000, 0x1_1800_2800_01ff)
    ∷ (0x1_1800_4000_0000, 0x1_1800_4000_000f)
    ∷ (0x1_1800_5000_0000, 0x1_1800_5000_1fff)
    ∷ (0x1_1800_5800_0000, 0x1_1800_5800_1fff)
    ∷ (0x1_1800_6800_0000, 0x1_1800_6800_1fff)
    ∷ (0x1_1800_8000_0000, 0x1_1800_8000_07ff)
    ∷ (0x1_1800_8800_0000, 0x1_1800_8800_007f)
    ∷ (0x1_1800_a000_0000, 0x1_1800_a000_1fff)
    ∷ (0x1_1800_b000_0000, 0x1_1800_b000_03ff)
    ∷ (0x1_1800_f000_0000, 0x1_1800_f000_07ff)
    ∷ (0x1_1900_0000_0000, 0x1_190f_ffff_ffff)
    ∷ (0x1_1b00_0000_0000, 0x1_1b0f_ffff_ffff)
    ∷ (0x1_1c00_0000_0000, 0x1_1c0f_ffff_ffff)
    ∷ (0x1_1d00_0000_0000, 0x1_1d0f_ffff_ffff)
    ∷ (0x1_1e00_0000_0000, 0x1_1e0f_ffff_ffff)
    ∷ (0x1_1a00_0000_0000, 0x1_1a0f_ffff_ffff)
    ∷ (0x1_2900_0000_0000, 0x1_290f_ffff_ffff)
    ∷ (0x1_2a00_0000_0000, 0x1_2a0f_ffff_ffff)
    ∷ (0x1_2b00_0000_0000, 0x1_2b0f_ffff_ffff)
    ∷ (0x1_2c00_0000_0000, 0x1_2c0f_ffff_ffff)
    ∷ (0x1_2d00_0000_0000, 0x1_2d0f_ffff_ffff)
    ∷ (0x1_2e00_0000_0000, 0x1_2e0f_ffff_ffff)
    ∷ (0x1_2f00_0000_0000, 0x1_2f0f_ffff_ffff)
    ∷ (0x1_4000_0000_0000, 0x1_4000_0000_07ff)
    ∷ (0x1_4f00_0000_0000, 0x1_4f00_0000_07ff)
    ∷ (0x1_5200_0000_0000, 0x1_5200_0003_ffff)
    ∷ (0x1_6000_0000_0000, 0x1_600f_ffff_ffff)
    ∷ (0x1_6100_0000_0000, 0x1_610f_ffff_ffff)
    ∷ (0x1_6200_0000_0000, 0x1_6200_0000_ffff)
    ∷ (0x1_6300_0000_0000, 0x1_630f_ffff_ffff)
    ∷ (0x1_6700_0000_0000, 0x1_6700_0000_03ff)
    ∷ (0x1_6f00_0000_0000, 0x1_6f00_0000_0fff)
    ∷ (0x1f_0000_0000_0000, 0x1_f00f_ffff_ffff)
    ∷ (0x1_1f00_0000_0000, 0x1_1f0f_ffff_ffff)
    ∷ (0x1_1800_2000_0000, 0x1_1800_2000_1fff)
    ∷ (0x1_1800_a800_0000, 0x1_1800_a800_1fff)
    ∷ (0x1_1800_3800_0000, 0x1_1800_3800_1fff)
    ∷ (0x1_1800_e000_0000, 0x1_1800_e000_1fff)
    ∷ (0x1_1800_b800_0000, 0x1_1800_b800_1fff)
    ∷ (0x1_6f00_1000_0000, 0x1_6f00_1000_1fff)
    ∷ (0x1_1800_1000_0000, 0x1_1800_1000_1fff)
    ∷ []

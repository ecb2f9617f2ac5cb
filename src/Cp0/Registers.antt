-- ===== src/Cp0/Registers.antt =====
-- CP0_IPE.h: the register numbers; each stands for `reg[number * 8 + select]`.
use type_ii_hypervisor_code.Common.{ℕ}

abbrev pub h2_cp0_count : ℕ
h2_cp0_count = 9

abbrev pub h2_cp0_compare : ℕ
h2_cp0_compare = 11

abbrev pub h2_cp0_status : ℕ
h2_cp0_status = 12

abbrev pub h2_cp0_cause : ℕ
h2_cp0_cause = 13

abbrev pub h2_cp0_ebase_1 : ℕ
h2_cp0_ebase_1 = 15

abbrev pub h2_cp0_cvmcount_6 : ℕ
h2_cp0_cvmcount_6 = 9

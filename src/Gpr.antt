-- ===== src/Gpr.antt =====
-- GPR_IPE.h and GPR_IPE.cpp: the general purpose registers of a core, a function of the number. A
-- number is an `int`, given as 32 bits; one that is negative or above 31 ends the process.
use type_ii_hypervisor_code.Common.{ℕ, ◌^◌, if◌then◌else◌, ◌||◌, ◌==◌, ltb, leb, Result}

abbrev pub gpr_ra : ℕ
gpr_ra = 31

unfoldable pub gpr_read : (ℕ → ℕ) → ℕ → Result ℕ
gpr_read gregs regid =
    if leb (2 ^ 31) regid || ltb gpr_ra regid then Result.exited else Result.ok (gregs regid)

unfoldable pub gpr_write : (ℕ → ℕ) → ℕ → ℕ → Result (ℕ → ℕ)
gpr_write gregs val regid =
    if leb (2 ^ 31) regid || ltb gpr_ra regid
    then Result.exited
    else Result.ok (λ i. if i == regid then val else gregs i)

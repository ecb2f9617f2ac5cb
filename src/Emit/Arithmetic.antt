-- ===== src/Emit/Arithmetic.antt =====
-- Translation_IPE.cpp: arithmetic on registers and immediates.
use type_ii_hypervisor_code.Common.{not, ◌==◌, if◌then◌else◌, List, [], ◌∷◌, ◌++◌}
use type_ii_hypervisor_code.Instr.{IInfo}
use type_ii_hypervisor_code.Layout.{
  opcode_mfhi, opcode_mflo, opcode_zero, reg_hi, reg_lo, temp1, temp2, temp3,
}
use type_ii_hypervisor_code.Emit.{HostIns, load_gp, store_gp}

unfoldable pub unprev_r : IInfo → List HostIns
unprev_r i =
    if not (i.rd == 0)
    then load_gp temp1 i.rs
      ∷ load_gp temp2 i.rt
      ∷ load_gp temp3 i.rd
      ∷ HostIns.r_word i.opcode temp1 temp2 temp3 i.shft i.func
      ∷ store_gp temp3 i.rd
      ∷ []
    else HostIns.zero_word ∷ []

unfoldable pub shift_r : IInfo → List HostIns
shift_r i =
    load_gp temp1 i.rt
    ∷ HostIns.r_word i.opcode i.rs temp1 temp2 i.shft i.func
    ∷ store_gp temp2 i.rd
    ∷ []

unfoldable pub mul_div_r : IInfo → List HostIns
mul_div_r i =
    load_gp temp1 i.rs
    ∷ load_gp temp2 i.rt
    ∷ HostIns.r_word i.opcode temp1 temp2 i.rd i.shft i.func
    ∷ HostIns.r_word 0 0 0 temp2 0 opcode_mflo
    ∷ HostIns.r_word 0 0 0 temp1 0 opcode_mfhi
    ∷ store_gp temp2 reg_lo
    ∷ store_gp temp1 reg_hi
    ∷ []

unfoldable pub madd : IInfo → List HostIns
madd i =
    load_gp temp1 reg_lo
    ∷ HostIns.r_word opcode_zero 0 temp1 temp1 0 60
    ∷ HostIns.r_word opcode_zero 0 temp1 temp1 0 62
    ∷ load_gp temp2 reg_hi
    ∷ HostIns.r_word opcode_zero 0 temp2 temp2 0 60
    ∷ HostIns.r_word opcode_zero temp2 temp1 temp3 0 37
    ∷ load_gp temp1 i.rs
    ∷ load_gp temp2 i.rt
    ∷ HostIns.r_word opcode_zero temp2 temp1 0 0 24
    ∷ HostIns.r_word 0 0 0 temp1 0 opcode_mflo
    ∷ HostIns.r_word opcode_zero 0 temp1 temp1 0 60
    ∷ HostIns.r_word opcode_zero 0 temp1 temp1 0 62
    ∷ HostIns.r_word 0 0 0 temp2 0 opcode_mfhi
    ∷ HostIns.r_word opcode_zero 0 temp2 temp2 0 60
    ∷ HostIns.r_word opcode_zero temp2 temp1 temp1 0 37
    ∷ ((if i.func == 0
          then HostIns.r_word opcode_zero temp3 temp1 temp1 0 44 ∷ []
          else if i.func == 1
          then HostIns.r_word opcode_zero temp3 temp1 temp1 0 45 ∷ []
          else if i.func == 4
          then HostIns.r_word opcode_zero temp3 temp1 temp1 0 46 ∷ []
          else if i.func == 5
          then HostIns.r_word opcode_zero temp3 temp1 temp1 0 47 ∷ []
          else [])
        ++ (HostIns.r_word opcode_zero 0 temp1 temp2 0 63
            ∷ store_gp temp2 reg_hi
            ∷ HostIns.r_word opcode_zero 0 temp1 temp1 0 60
            ∷ HostIns.r_word opcode_zero 0 temp1 temp1 0 63
            ∷ store_gp temp1 reg_lo
            ∷ []))

unfoldable pub move_from_lo_hi_r : IInfo → List HostIns
move_from_lo_hi_r i =
    (if i.func == 16
      then load_gp temp1 reg_hi ∷ ((if not (i.rd == 0) then store_gp temp1 i.rd ∷ [] else []))
      else [])
    ++ ((if i.func == 18
        then load_gp temp1 reg_lo ∷ ((if not (i.rd == 0) then store_gp temp1 i.rd ∷ [] else []))
        else []))

unfoldable pub move_to_lo_hi_r : IInfo → List HostIns
move_to_lo_hi_r i =
    (if i.func == 16 then load_gp temp1 i.rs ∷ store_gp temp1 reg_hi ∷ [] else [])
    ++ ((if i.func == 18 then load_gp temp1 i.rs ∷ store_gp temp1 reg_lo ∷ [] else []))

unfoldable pub ext_r : IInfo → List HostIns
ext_r i =
    load_gp temp1 i.rs
    ∷ HostIns.r_word i.opcode temp1 temp2 i.rd i.shft i.func
    ∷ store_gp temp2 i.rt
    ∷ []

unfoldable pub ins_r : IInfo → List HostIns
ins_r i =
    load_gp temp1 i.rs
    ∷ load_gp temp2 i.rt
    ∷ HostIns.r_word i.opcode temp1 temp2 i.rd i.shft i.func
    ∷ store_gp temp2 i.rt
    ∷ []

unfoldable pub unprev_i : IInfo → List HostIns
unprev_i i =
    if not (i.opcode == 15)
    then load_gp temp1 i.i_rs
      ∷ HostIns.i_word i.opcode temp1 temp2 i.imm
      ∷ store_gp temp2 i.i_rt
      ∷ []
    else load_gp temp1 i.i_rs ∷ HostIns.i_word i.opcode 0 temp2 i.imm ∷ store_gp temp2 i.i_rt ∷ []

unfoldable pub seqi_snei : IInfo → List HostIns
seqi_snei i =
    load_gp temp1 i.rs
    ∷ HostIns.r_word i.opcode temp1 temp2 i.rd i.shft i.func
    ∷ store_gp temp2 i.rt
    ∷ []

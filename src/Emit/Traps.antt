-- ===== src/Emit/Traps.antt =====
-- Translation_IPE.cpp: the trap instructions.
use type_ii_hypervisor_code.Common.{◌==◌, if◌then◌else◌, List, [], ◌∷◌, ◌++◌}
use type_ii_hypervisor_code.Instr.{IInfo}
use type_ii_hypervisor_code.Emit.Control.{trap_control}
use type_ii_hypervisor_code.Layout.{
  opcode_addi, opcode_beq, opcode_bgez, opcode_bne, opcode_zero, temp1, temp2,
}
use type_ii_hypervisor_code.Emit.{HostIns, load_gp}

unfoldable pub teq_tne_r : IInfo → List HostIns
teq_tne_r i =
    load_gp temp1 i.rs
    ∷ load_gp temp2 i.rt
    ∷ ((if i.func == 52
          then HostIns.i_word opcode_beq temp1 temp2 3 ∷ []
          else HostIns.i_word opcode_bne temp1 temp2 3 ∷ [])
        ++ (HostIns.zero_word ∷ HostIns.i_word opcode_beq 0 0 6 ∷ HostIns.zero_word ∷ trap_control))

unfoldable pub tge_tgeu_tlt_tltu_r : IInfo → List HostIns
tge_tgeu_tlt_tltu_r i =
    load_gp temp1 i.rs
    ∷ load_gp temp2 i.rt
    ∷ ((if i.func == 48
          then HostIns.r_word opcode_zero temp1 temp2 temp2 0 34 ∷ []
          else if i.func == 49
          then HostIns.r_word opcode_zero temp1 temp2 temp2 0 35 ∷ []
          else if i.func == 50
          then HostIns.r_word opcode_zero temp2 temp1 temp2 0 34 ∷ []
          else if i.func == 51
          then HostIns.r_word opcode_zero temp2 temp1 temp2 0 35 ∷ []
          else [])
        ++ (HostIns.i_word opcode_bgez temp2 1 3
            ∷ HostIns.zero_word
            ∷ HostIns.i_word opcode_beq 0 0 6
            ∷ HostIns.zero_word
            ∷ trap_control))

unfoldable pub teqi_tnei_i : IInfo → List HostIns
teqi_tnei_i i =
    load_gp temp1 i.i_rs
    ∷ HostIns.i_word opcode_addi 0 temp2 i.imm
    ∷ ((if i.i_rt == 12
          then HostIns.i_word opcode_beq temp1 temp2 3 ∷ []
          else HostIns.i_word opcode_bne temp1 temp2 3 ∷ [])
        ++ (HostIns.zero_word ∷ HostIns.i_word opcode_beq 0 0 6 ∷ HostIns.zero_word ∷ trap_control))

unfoldable pub tgei_tgeiu_tlti_tltiu_i : IInfo → List HostIns
tgei_tgeiu_tlti_tltiu_i i =
    load_gp temp1 i.i_rs
    ∷ HostIns.i_word opcode_addi 0 temp2 i.imm
    ∷ ((if i.i_rt == 8
          then HostIns.r_word opcode_zero temp1 temp2 temp2 0 34 ∷ []
          else if i.i_rt == 9
          then HostIns.r_word opcode_zero temp1 temp2 temp2 0 35 ∷ []
          else if i.i_rt == 10
          then HostIns.r_word opcode_zero temp2 temp1 temp2 0 34 ∷ []
          else if i.i_rt == 11
          then HostIns.r_word opcode_zero temp2 temp1 temp2 0 35 ∷ []
          else [])
        ++ (HostIns.i_word opcode_bgez temp2 1 3
            ∷ HostIns.zero_word
            ∷ HostIns.i_word opcode_beq 0 0 6
            ∷ HostIns.zero_word
            ∷ trap_control))

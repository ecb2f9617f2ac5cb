-- ===== src/Emit/Control.antt =====
-- Translation_IPE.cpp: the calls of the C++ code, the end of a block, and the instructions that
-- need no registers.
use type_ii_hypervisor_code.Common.{◌||◌, ◌==◌, if◌then◌else◌, List, [], ◌∷◌, ◌++◌}
use type_ii_hypervisor_code.Instr.{IInfo}
use type_ii_hypervisor_code.Layout.{
  base_reg, control_from_break, control_from_end_of_block, control_from_ext_int,
  control_from_log_write, control_from_ri, control_from_syscall, control_from_trap, opcode_addi,
  opcode_addiu, opcode_andi, opcode_beq, opcode_bne, opcode_lui, opcode_saad, opcode_special2,
  opcode_zero, pc_offset, temp1, temp2, temp3,
}
use type_ii_hypervisor_code.Emit.{
  HostIns, call_c, leave, load_cp, set_mark, store, store_cp, store_gp,
}

unfoldable pub add_log : List HostIns
add_log = set_mark temp1 control_from_log_write ++ call_c

unfoldable pub update_pc : List HostIns
update_pc =
    HostIns.i_word opcode_addi 0 temp1 4
    ∷ HostIns.r_word opcode_special2 base_reg temp1 0 0 opcode_saad
    ∷ []

unfoldable pub checking_previlige : List HostIns
checking_previlige =
    load_cp temp1 12 0
    ∷ HostIns.i_word opcode_andi temp1 temp2 0x1e
    ∷ HostIns.i_word 14 temp2 temp2 0x10
    ∷ HostIns.i_word opcode_bne 0 temp2 6
    ∷ HostIns.zero_word
    ∷ (set_mark temp3 control_from_ri ++ call_c)

unfoldable pub trap_control : List HostIns
trap_control = set_mark temp3 control_from_trap ++ call_c

unfoldable pub syscall : List HostIns
syscall = set_mark temp3 control_from_syscall ++ call_c

unfoldable pub sync : List HostIns
sync = HostIns.zero_word ∷ []

unfoldable pub nop : List HostIns
nop = HostIns.zero_word ∷ []

unfoldable pub cache : List HostIns
cache = HostIns.zero_word ∷ []

unfoldable pub rdhwr : IInfo → List HostIns
rdhwr i =
    (if i.rd == 0
      then load_cp temp2 15 1
        ∷ HostIns.i_word opcode_addiu 0 temp3 0x3ff
        ∷ HostIns.r_word opcode_zero temp2 temp3 temp3 0 36
        ∷ []
      else if i.rd == 31
      then load_cp temp3 9 6 ∷ []
      else if i.rd == 2 || i.rd == 3
      then load_cp temp3 9 0 ∷ []
      else HostIns.i_word opcode_addiu 0 temp3 0 ∷ [])
    ++ (store_gp temp3 i.rt ∷ [])

unfoldable pub br : List HostIns
br = set_mark temp3 control_from_break ++ call_c

unfoldable pub pref : List HostIns
pref = HostIns.zero_word ∷ HostIns.zero_word ∷ []

unfoldable pub eret : List HostIns
eret =
    load_cp temp1 12 0
    ∷ HostIns.i_word opcode_andi temp1 temp2 0x4
    ∷ HostIns.i_word opcode_beq temp2 0 12
    ∷ HostIns.zero_word
    ∷ load_cp temp2 30 0
    ∷ store temp2 pc_offset
    ∷ HostIns.i_word opcode_lui 0 temp2 0xffff
    ∷ HostIns.i_word opcode_addi temp2 temp2 0xfffb
    ∷ HostIns.r_word opcode_zero temp2 temp1 temp1 0 36
    ∷ store_cp temp1 12 0
    ∷ (set_mark temp1 control_from_end_of_block
        ++ (leave
            ++ (load_cp temp2 14 0
                ∷ store temp2 pc_offset
                ∷ HostIns.i_word opcode_lui 0 temp2 0xffff
                ∷ HostIns.i_word opcode_addi temp2 temp2 0xfffd
                ∷ HostIns.r_word opcode_zero temp2 temp1 temp1 0 36
                ∷ store_cp temp1 12 0
                ∷ (set_mark temp1 control_from_end_of_block ++ leave))))

unfoldable pub ssnop : List HostIns
ssnop = HostIns.zero_word ∷ []

unfoldable pub deret : List HostIns
deret = HostIns.zero_word ∷ []

unfoldable pub wait : List HostIns
wait = set_mark temp3 control_from_ext_int ++ call_c

unfoldable pub terminate_block : List HostIns
terminate_block = set_mark temp3 control_from_end_of_block ++ leave

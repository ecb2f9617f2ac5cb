-- ===== src/Emit/Branches.antt =====
-- Translation_IPE.cpp: branches. `slot` is the code of the delay slot.
use type_ii_hypervisor_code.Common.{
  ℕ, ◌+◌, ◌*◌, bit_and, ◌||◌, ◌==◌, if◌then◌else◌, List, [], ◌∷◌, ◌++◌,
}
use type_ii_hypervisor_code.Instr.{IInfo}
use type_ii_hypervisor_code.Emit.Control.{add_log}
use type_ii_hypervisor_code.Layout.{
  block_end_pc, control_from_end_of_block, memory_temp4, memory_temp5, opcode_daddi, pc_offset,
  temp1, temp2, temp3,
}
use type_ii_hypervisor_code.Emit.{HostIns, leave, load, load_gp, log_gen, set_mark, store, store_gp}

-- `imm = 0xffff & (imm * 4 + 4)`
unfoldable pub branch_offset : ℕ → ℕ
branch_offset imm = bit_and 0xffff (imm * 4 + 4)

unfoldable pub branch_path : ℕ → List HostIns
branch_path imm =
    load temp3 block_end_pc
    ∷ HostIns.i_word opcode_daddi temp3 temp3 8
    ∷ store temp3 pc_offset
    ∷ (leave
        ++ (load temp3 block_end_pc
            ∷ HostIns.i_word opcode_daddi temp3 temp3 (branch_offset imm)
            ∷ store temp3 pc_offset
            ∷ leave))

unfoldable pub branch_path_likely : List HostIns → ℕ → List HostIns
branch_path_likely slot imm =
    set_mark temp3 control_from_end_of_block
    ++ (load temp3 block_end_pc
        ∷ HostIns.i_word opcode_daddi temp3 temp3 8
        ∷ store temp3 pc_offset
        ∷ (leave
            ++ (slot
                ++ (set_mark temp3 control_from_end_of_block
                    ++ (load temp3 block_end_pc
                        ∷ HostIns.i_word opcode_daddi temp3 temp3 (branch_offset imm)
                        ∷ store temp3 pc_offset
                        ∷ leave)))))

unfoldable pub and_link : List HostIns
and_link =
    load temp1 block_end_pc ∷ HostIns.i_word opcode_daddi temp1 temp1 8 ∷ store_gp temp1 31 ∷ []

unfoldable pub bne_beq : IInfo → List HostIns → List HostIns
bne_beq i slot =
    (if log_gen then add_log else [])
    ++ (load_gp temp3 i.i_rs
        ∷ load_gp temp2 i.i_rt
        ∷ store temp3 memory_temp4
        ∷ store temp2 memory_temp5
        ∷ (slot
            ++ (set_mark temp1 control_from_end_of_block
                ++ (load temp3 memory_temp4
                    ∷ load temp2 memory_temp5
                    ∷ HostIns.i_word i.opcode temp3 temp2 7
                    ∷ HostIns.zero_word
                    ∷ (branch_path i.imm)))))

unfoldable pub bbit : IInfo → List HostIns → List HostIns
bbit i slot =
    (if log_gen then add_log else [])
    ++ (load_gp temp3 i.i_rs
        ∷ store temp3 memory_temp4
        ∷ (slot
            ++ (set_mark temp1 control_from_end_of_block
                ++ (load temp3 memory_temp4
                    ∷ HostIns.i_word i.opcode temp3 i.i_rt 7
                    ∷ HostIns.zero_word
                    ∷ (branch_path i.imm)))))

unfoldable pub branch : IInfo → List HostIns → List HostIns
branch i slot =
    (if i.i_rt == 16 || i.i_rt == 17 then and_link else [])
    ++ ((if log_gen then add_log else [])
        ++ (load_gp temp3 i.i_rs
            ∷ store temp3 memory_temp4
            ∷ (slot
                ++ (set_mark temp1 control_from_end_of_block
                    ++ (load temp3 memory_temp4
                        ∷ HostIns.i_word i.opcode temp3 i.i_rt 7
                        ∷ HostIns.zero_word
                        ∷ (branch_path i.imm))))))

unfoldable pub bne_beq_likely : IInfo → List HostIns → List HostIns
bne_beq_likely i slot =
    (if log_gen then add_log else [])
    ++ (load_gp temp1 i.i_rs
        ∷ load_gp temp2 i.i_rt
        ∷ HostIns.i_word i.opcode temp1 temp2 9
        ∷ HostIns.zero_word
        ∷ (branch_path_likely slot i.imm))

unfoldable pub branch_likely : IInfo → List HostIns → List HostIns
branch_likely i slot =
    (if i.i_rt == 18 || i.i_rt == 19 then and_link else [])
    ++ ((if log_gen then add_log else [])
        ++ (load_gp temp1 i.i_rs
            ∷ HostIns.i_word i.opcode temp1 i.i_rt 9
            ∷ HostIns.zero_word
            ∷ (branch_path_likely slot i.imm)))

-- ===== src/Emit/Jumps.antt =====
-- Translation_IPE.cpp: jumps. `slot` is the code of the delay slot.
use type_ii_hypervisor_code.Common.{
  ℕ, ◌*◌, ◌^◌, bit_and, bit_or, if◌then◌else◌, List, [], ◌∷◌, ◌++◌,
}
use type_ii_hypervisor_code.Word.{shr}
use type_ii_hypervisor_code.Instr.{IInfo}
use type_ii_hypervisor_code.Emit.Control.{add_log}
use type_ii_hypervisor_code.Emit.Branches.{and_link}
use type_ii_hypervisor_code.Layout.{
  block_end_pc, control_from_end_of_block, memory_temp4, opcode_daddi, opcode_lui, opcode_ori,
  pc_offset, temp1,
}
use type_ii_hypervisor_code.Emit.{HostIns, leave, load, load_gp, log_gen, set_mark, store, store_gp}

unfoldable pub jump_target : IInfo → ℕ → ℕ
jump_target i block_end = bit_or (bit_and block_end 0xf0000000) (i.addr * 2 ^ 2)

unfoldable pub j : IInfo → List HostIns → ℕ → List HostIns
j i slot block_end =
    (if log_gen then add_log else [])
    ++ (slot
        ++ (HostIns.i_word opcode_lui 0 temp1 (shr (jump_target i block_end) 16)
            ∷ HostIns.i_word opcode_ori temp1 temp1 (bit_and (jump_target i block_end) 0x0000ffff)
            ∷ store temp1 pc_offset
            ∷ (set_mark temp1 control_from_end_of_block ++ leave)))

unfoldable pub jal : IInfo → List HostIns → ℕ → List HostIns
jal i slot block_end =
    and_link
    ++ ((if log_gen then add_log else [])
        ++ (slot
            ++ (HostIns.i_word opcode_lui 0 temp1 (shr (jump_target i block_end) 16)
                ∷ HostIns.i_word opcode_ori temp1 temp1
                    (bit_and (jump_target i block_end) 0x0000ffff)
                ∷ store temp1 pc_offset
                ∷ (set_mark temp1 control_from_end_of_block ++ leave))))

unfoldable pub jr : IInfo → List HostIns → List HostIns
jr i slot =
    (if log_gen then add_log else [])
    ++ (load_gp temp1 i.rs
        ∷ store temp1 memory_temp4
        ∷ (slot
            ++ (load temp1 memory_temp4
                ∷ store temp1 pc_offset
                ∷ (set_mark temp1 control_from_end_of_block ++ leave))))

unfoldable pub jalr : IInfo → List HostIns → List HostIns
jalr i slot =
    load temp1 block_end_pc
    ∷ HostIns.i_word opcode_daddi temp1 temp1 8
    ∷ store_gp temp1 i.rd
    ∷ load_gp temp1 i.rs
    ∷ store temp1 memory_temp4
    ∷ ((if log_gen then add_log else [])
        ++ (slot
            ++ (load temp1 memory_temp4
                ∷ store temp1 pc_offset
                ∷ (set_mark temp1 control_from_end_of_block ++ leave))))

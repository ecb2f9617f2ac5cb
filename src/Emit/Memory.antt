-- ===== src/Emit/Memory.antt =====
-- Translation_IPE.cpp: loads and stores, load-linked and store-conditional.
use type_ii_hypervisor_code.Common.{ℕ, ◌==◌, if◌then◌else◌, List, [], ◌∷◌, ◌++◌}
use type_ii_hypervisor_code.Instr.{IInfo}
use type_ii_hypervisor_code.Layout.{
  addr_store, control_from_ls, ldst_data, ll_data, llbit_flag, op_indicator, opcode_add,
  opcode_addi, opcode_addiu, opcode_beq, opcode_bne, opcode_caviumaddition, opcode_daddiu,
  opcode_ld, opcode_lw, opcode_sd, opcode_sw, opcode_zero, temp1, temp2, temp3, trans_addr,
}
use type_ii_hypervisor_code.Emit.{HostIns, call_c, load, load_gp, set_mark, store, store_gp}

unfoldable pub common_in_ls : IInfo → ℕ → List HostIns
common_in_ls i is_store =
    HostIns.i_word opcode_addiu 0 temp2 is_store
    ∷ store temp2 op_indicator
    ∷ ((if is_store == 1 then load_gp temp1 i.i_rt ∷ store temp1 ldst_data ∷ [] else [])
        ++ (load_gp temp1 i.i_rs
            ∷ HostIns.i_word opcode_daddiu temp1 temp1 i.imm
            ∷ store temp1 addr_store
            ∷ (set_mark temp2 control_from_ls
                ++ (call_c ++ (load temp1 trans_addr ∷ load_gp temp2 i.i_rt ∷ [])))))

unfoldable pub unprev_i_load : IInfo → List HostIns
unprev_i_load i =
    if i.i_rt == 0
    then HostIns.zero_word ∷ []
    else common_in_ls i 0 ++ (HostIns.i_word i.opcode temp1 temp2 0 ∷ store_gp temp2 i.i_rt ∷ [])

unfoldable pub unprev_i_store : IInfo → List HostIns
unprev_i_store i = common_in_ls i 1 ++ (HostIns.i_word i.opcode temp1 temp2 0 ∷ [])

unfoldable pub common_in_sc : IInfo → List HostIns
common_in_sc i =
    load temp3 llbit_flag
    ∷ HostIns.i_word opcode_beq 0 temp3 14
    ∷ HostIns.r_word opcode_zero 0 0 temp1 0 opcode_add
    ∷ load_gp temp1 i.i_rs
    ∷ load temp2 addr_store
    ∷ HostIns.i_word opcode_daddiu temp1 temp1 i.imm
    ∷ HostIns.i_word opcode_bne temp1 temp2 9
    ∷ HostIns.r_word opcode_zero 0 0 temp1 0 opcode_add
    ∷ load temp3 trans_addr
    ∷ load temp1 ll_data
    ∷ []

unfoldable pub sc : IInfo → List HostIns
sc i =
    common_in_sc i
    ++ (HostIns.i_word opcode_lw temp3 temp2 0
        ∷ HostIns.i_word opcode_bne temp1 temp2 4
        ∷ HostIns.r_word opcode_zero 0 0 temp1 0 opcode_add
        ∷ load_gp temp2 i.i_rt
        ∷ HostIns.i_word opcode_sw temp3 temp2 0
        ∷ HostIns.i_word opcode_addiu 0 temp1 1
        ∷ store_gp temp1 i.i_rt
        ∷ store 0 llbit_flag
        ∷ [])

unfoldable pub scd : IInfo → List HostIns
scd i =
    common_in_sc i
    ++ (HostIns.i_word opcode_ld temp3 temp2 0
        ∷ HostIns.i_word opcode_bne temp1 temp2 4
        ∷ HostIns.r_word opcode_zero 0 0 temp1 0 opcode_add
        ∷ load_gp temp2 i.i_rt
        ∷ HostIns.i_word opcode_sd temp3 temp2 0
        ∷ HostIns.i_word opcode_addiu 0 temp1 1
        ∷ store_gp temp1 i.i_rt
        ∷ store 0 llbit_flag
        ∷ [])

unfoldable pub common_in_ll : IInfo → List HostIns
common_in_ll i =
    HostIns.i_word opcode_addi 0 temp3 1
    ∷ store temp3 llbit_flag
    ∷ ((if i.i_rt == 0
        then HostIns.zero_word ∷ []
        else HostIns.i_word opcode_addiu 0 temp2 0
          ∷ store temp2 op_indicator
          ∷ load_gp temp1 i.i_rs
          ∷ HostIns.i_word opcode_daddiu temp1 temp1 i.imm
          ∷ store temp1 addr_store
          ∷ (set_mark temp2 control_from_ls ++ (call_c ++ (load temp1 trans_addr ∷ [])))))

unfoldable pub ll : IInfo → List HostIns
ll i =
    common_in_ll i
    ++ (HostIns.i_word opcode_lw temp1 temp2 0 ∷ store_gp temp2 i.i_rt ∷ store temp2 ll_data ∷ [])

unfoldable pub lld : IInfo → List HostIns
lld i =
    common_in_ll i
    ++ (HostIns.i_word opcode_ld temp1 temp2 0 ∷ store_gp temp2 i.i_rt ∷ store temp2 ll_data ∷ [])

unfoldable pub saa : IInfo → List HostIns
saa i =
    load_gp temp1 i.rs
    ∷ store temp1 addr_store
    ∷ (set_mark temp2 control_from_ls
        ++ (call_c
            ++ (load temp1 trans_addr
                ∷ load_gp temp3 i.rt
                ∷ HostIns.r_word opcode_caviumaddition temp1 temp3 i.rd i.shft i.func
                ∷ [])))

unfoldable pub saad : IInfo → List HostIns
saad i =
    load_gp temp1 i.rs
    ∷ store temp1 addr_store
    ∷ (set_mark temp2 control_from_ls
        ++ (call_c
            ++ (load temp1 trans_addr
                ∷ load_gp temp3 i.rt
                ∷ HostIns.r_word opcode_caviumaddition temp1 temp3 i.rd i.shft i.func
                ∷ [])))

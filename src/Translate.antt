-- ===== src/Translate.antt =====
-- BlockTranslation_IPE.cpp, and `findInstrCase` of InsDecoding.cpp together with the routines of
-- Translation_IPE that it calls: the code of one instruction and of a block.
pub mod Slot
pub mod Immediates
pub mod Lost
pub mod Landing
pub mod Zero
use type_ii_hypervisor_code.Common.{
  ℕ, zero, Option, none, some, List, [], ◌∷◌, ◌++◌, if◌then◌else◌, Result, and_then,
}
use type_ii_hypervisor_code.Instr.{IInfo}
use type_ii_hypervisor_code.Decode.{Routine, Decoded}
use type_ii_hypervisor_code.Decode.Opcodes.{find_instr_case}
use type_ii_hypervisor_code.Emit.{HostIns, log_gen}
use type_ii_hypervisor_code.Emit.Control.{
  add_log, update_pc, checking_previlige, trap_control, syscall, sync, nop, cache, rdhwr, br, pref,
  eret, ssnop, deret, wait, terminate_block,
}
use type_ii_hypervisor_code.Emit.Cop0.{mfc0, tlbr, tlbwi, tlbwr, tlbp, di, ei}
use type_ii_hypervisor_code.Emit.Mtc0.{mtc0}
use type_ii_hypervisor_code.Emit.Traps.{
  teq_tne_r, tge_tgeu_tlt_tltu_r, teqi_tnei_i, tgei_tgeiu_tlti_tltiu_i,
}
use type_ii_hypervisor_code.Emit.Arithmetic.{
  unprev_r, shift_r, mul_div_r, madd, move_from_lo_hi_r, move_to_lo_hi_r, ext_r, ins_r, unprev_i,
  seqi_snei,
}
use type_ii_hypervisor_code.Emit.Multiplier.{mtm0, mtm1, mtm2, mtp0, mtp1, mtp2, v3mulu}
use type_ii_hypervisor_code.Emit.Memory.{
  common_in_ls, unprev_i_load, unprev_i_store, common_in_sc, sc, scd, common_in_ll, ll, lld, saa,
  saad,
}
use type_ii_hypervisor_code.Emit.Branches.{
  branch_offset, branch_path, branch_path_likely, and_link, bne_beq, bbit, branch, bne_beq_likely,
  branch_likely,
}
use type_ii_hypervisor_code.Emit.Jumps.{jump_target, j, jal, jr, jalr}

abbrev pub Code : Type 0
Code = Result (List HostIns)

-- Code around the code of the delay slot, which the source translates on the way.
abbrev pub around : Code → (List HostIns → List HostIns) → Code
around slot f = and_then slot (λ d. Result.ok (f d))

-- The call of a routine. `slot` is what the translation of the delay slot comes to.
unfoldable pub run_routine : Routine → IInfo → Code → ℕ → Code
run_routine Routine.shift_r i slot block_end = Result.ok (shift_r i)
run_routine Routine.j i slot block_end = around slot (λ d. j i d block_end)
run_routine Routine.jal i slot block_end = around slot (λ d. jal i d block_end)
run_routine Routine.bne_beq i slot block_end = around slot (bne_beq i)
run_routine Routine.branch i slot block_end = around slot (branch i)
run_routine Routine.unprev_i i slot block_end = Result.ok (unprev_i i)
run_routine Routine.nop i slot block_end = Result.ok nop
run_routine Routine.bne_beq_likely i slot block_end = around slot (bne_beq_likely i)
run_routine Routine.branch_likely i slot block_end = around slot (branch_likely i)
run_routine Routine.unprev_i_load i slot block_end = Result.ok (unprev_i_load i)
run_routine Routine.unprev_i_store i slot block_end = Result.ok (unprev_i_store i)
run_routine Routine.cache i slot block_end = Result.ok cache
run_routine Routine.ll i slot block_end = Result.ok (ll i)
run_routine Routine.bbit i slot block_end = around slot (bbit i)
run_routine Routine.pref i slot block_end = Result.ok pref
run_routine Routine.lld i slot block_end = Result.ok (lld i)
run_routine Routine.sc i slot block_end = Result.ok (sc i)
run_routine Routine.terminate_block i slot block_end = Result.ok terminate_block
run_routine Routine.scd i slot block_end = Result.ok (scd i)
run_routine Routine.ssnop i slot block_end = Result.ok ssnop
run_routine Routine.unprev_r i slot block_end = Result.ok (unprev_r i)
run_routine Routine.jr i slot block_end = around slot (jr i)
run_routine Routine.jalr i slot block_end = around slot (jalr i)
run_routine Routine.syscall i slot block_end = Result.ok syscall
run_routine Routine.br i slot block_end = Result.ok br
run_routine Routine.sync i slot block_end = Result.ok sync
run_routine Routine.move_from_lo_hi_r i slot block_end = Result.ok (move_from_lo_hi_r i)
run_routine Routine.move_to_lo_hi_r i slot block_end = Result.ok (move_to_lo_hi_r i)
run_routine Routine.mul_div_r i slot block_end = Result.ok (mul_div_r i)
run_routine Routine.tge_tgeu_tlt_tltu_r i slot block_end = Result.ok (tge_tgeu_tlt_tltu_r i)
run_routine Routine.teq_tne_r i slot block_end = Result.ok (teq_tne_r i)
run_routine Routine.tgei_tgeiu_tlti_tltiu_i i slot block_end = Result.ok (tgei_tgeiu_tlti_tltiu_i i)
run_routine Routine.teqi_tnei_i i slot block_end = Result.ok (teqi_tnei_i i)
run_routine Routine.tlbr i slot block_end = Result.ok tlbr
run_routine Routine.tlbwi i slot block_end = Result.ok tlbwi
run_routine Routine.tlbwr i slot block_end = Result.ok tlbwr
run_routine Routine.tlbp i slot block_end = Result.ok tlbp
run_routine Routine.eret i slot block_end = Result.ok eret
run_routine Routine.deret i slot block_end = Result.ok deret
run_routine Routine.mfc0 i slot block_end = Result.ok (mfc0 i)
run_routine Routine.mtc0 i slot block_end = Result.ok (mtc0 i)
run_routine Routine.di i slot block_end = Result.ok (di i)
run_routine Routine.ei i slot block_end = Result.ok (ei i)
run_routine Routine.wait i slot block_end = Result.ok wait
run_routine Routine.madd i slot block_end = Result.ok (madd i)
run_routine Routine.mtm0 i slot block_end = Result.ok (mtm0 i)
run_routine Routine.mtp0 i slot block_end = Result.ok (mtp0 i)
run_routine Routine.mtp1 i slot block_end = Result.ok (mtp1 i)
run_routine Routine.mtp2 i slot block_end = Result.ok (mtp2 i)
run_routine Routine.mtm1 i slot block_end = Result.ok (mtm1 i)
run_routine Routine.mtm2 i slot block_end = Result.ok (mtm2 i)
run_routine Routine.v3mulu i slot block_end = Result.ok (v3mulu i)
run_routine Routine.saa i slot block_end = Result.ok (saa i)
run_routine Routine.saad i slot block_end = Result.ok (saad i)
run_routine Routine.seqi_snei i slot block_end = Result.ok (seqi_snei i)
run_routine Routine.ins_r i slot block_end = Result.ok (ins_r i)
run_routine Routine.ext_r i slot block_end = Result.ok (ext_r i)
run_routine Routine.rdhwr i slot block_end = Result.ok (rdhwr i)

abbrev pub code_of : Decoded → Code → ℕ → Code
code_of (Decoded.call r i) slot block_end = run_routine r i slot block_end
code_of Decoded.nothing slot block_end = Result.ok []
code_of Decoded.exits slot block_end = Result.exited
code_of Decoded.beyond slot block_end = Result.undefined

-- `findInstrCase` where InsD is NULL: a branch or jump reads through it.
unfoldable pub translate_alone : IInfo → ℕ → Code
translate_alone i block_end = code_of (find_instr_case i) Result.undefined block_end

-- `findInstrCase` for the last two instructions of a block.
unfoldable pub translate_pair : IInfo → IInfo → ℕ → Code
translate_pair i delay block_end = code_of (find_instr_case i) (translate_alone delay 0) block_end

-- The loop of `doBlockTranslation` and what stands behind it. With fewer than two instructions
-- MIN_TRANS_BLOCK_ERROR ends the process.
unfoldable pub do_block_translation : List IInfo → ℕ → Code
do_block_translation [] block_end = Result.exited
do_block_translation (i ∷ []) block_end = Result.exited
do_block_translation (i ∷ delay ∷ []) block_end =
    around (translate_pair i delay block_end) (λ c. (if log_gen then add_log else []) ++ c)
do_block_translation (i ∷ next ∷ third ∷ rest) block_end =
    and_then (translate_alone i block_end) (λ c.
      around (do_block_translation (next ∷ third ∷ rest) block_end)
        (λ d. (if log_gen then add_log else []) ++ (c ++ (update_pc ++ d))))

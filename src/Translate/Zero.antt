-- ===== src/Translate/Zero.antt =====
-- Translation_IPE.cpp: which routines emit a store to register 0 of the guest.
use type_ii_hypervisor_code.Common.{
  ℕ, ◌≡◌, ◌∙◌, Bool, false, ◌&&◌, ◌||◌, ◌==◌, arith, List, Result, Succeeds, and_then,
}
use type_ii_hypervisor_code.Instr.{IInfo}
use type_ii_hypervisor_code.Decode.{Routine}
use type_ii_hypervisor_code.Decode.Slots.{is_jump}
use type_ii_hypervisor_code.Emit.{HostIns}
use type_ii_hypervisor_code.Emit.Control.{
  checking_previlige, trap_control, syscall, sync, nop, cache, rdhwr, br, pref, eret, ssnop, deret,
  wait, terminate_block,
}
use type_ii_hypervisor_code.Emit.Cop0.{mfc0, tlbr, tlbwi, tlbwr, tlbp, di, ei}
use type_ii_hypervisor_code.Emit.Traps.{
  teq_tne_r, tge_tgeu_tlt_tltu_r, teqi_tnei_i, tgei_tgeiu_tlti_tltiu_i,
}
use type_ii_hypervisor_code.Emit.Arithmetic.{
  unprev_r, shift_r, mul_div_r, madd, move_from_lo_hi_r, move_to_lo_hi_r, ext_r, ins_r, unprev_i,
  seqi_snei,
}
use type_ii_hypervisor_code.Emit.Multiplier.{mtm0, mtm1, mtm2, mtp0, mtp1, mtp2, v3mulu}
use type_ii_hypervisor_code.Emit.Memory.{
  common_in_ls, unprev_i_load, unprev_i_store, common_in_sc, sc, scd, common_in_ll, ll, lld, saa,
  saad,
}
use type_ii_hypervisor_code.Emit.Zero.{
  writes_zero, mtc0-keeps, bne_beq-writes_zero, bbit-writes_zero, branch-writes_zero,
  bne_beq_likely-writes_zero, branch_likely-writes_zero, j-writes_zero, jal-writes_zero,
  jr-writes_zero, jalr-writes_zero,
}
use type_ii_hypervisor_code.Translate.{run_routine}

-- The routines that store their result without a test of its register, with that register.
abbrev pub names_zero : Routine → IInfo → Bool
names_zero Routine.shift_r i = i.rd == 0
names_zero Routine.jalr i = i.rd == 0
names_zero Routine.unprev_i i = i.i_rt == 0
names_zero Routine.ll i = i.i_rt == 0
names_zero Routine.lld i = i.i_rt == 0
names_zero Routine.sc i = i.i_rt == 0
names_zero Routine.scd i = i.i_rt == 0
names_zero Routine.ext_r i = i.rt == 0
names_zero Routine.ins_r i = i.rt == 0
names_zero Routine.seqi_snei i = i.rt == 0
names_zero Routine.rdhwr i = i.rt == 0
names_zero Routine.mfc0 i = i.rt == 0
names_zero _ i = false

-- A load-linked stores what it has loaded, whether or not it has loaded.
ll-writes_zero :
    (i : IInfo) → (writes_zero (ll i) ≡ i.i_rt == 0) × (writes_zero (lld i) ≡ i.i_rt == 0)
unfolding writes_zero ll lld common_in_ll
ll-writes_zero i = (ground arith, ground arith)

-- For every routine and every code of the delay slot: the code that the routine emits has a store
-- to the place of register 0 of the guest exactly if its instruction names register 0 as the
-- register of the result and it is arithmetic with an immediate, a shift, a move of a bit field, a
-- comparison with an immediate, `rdhwr`, `mfc0`, a load-linked, a store-conditional or `jalr`; or if
-- it is a branch or jump and the code of its delay slot has such a store. No other routine, a load
-- or arithmetic on three registers among them, stores to register 0.
pub run_routine-writes_zero :
    (r : Routine) (i : IInfo) (slot : List HostIns) (block_end : ℕ)
    → Succeeds
        (λ code. writes_zero code ≡ names_zero r i || (is_jump r && writes_zero slot))
        (run_routine r i (Result.ok slot) block_end)
unfolding run_routine and_then writes_zero br cache checking_previlige common_in_ls common_in_sc
    deret di ei eret ext_r ins_r madd mfc0 move_from_lo_hi_r move_to_lo_hi_r mtm0 mtm1 mtm2 mtp0
    mtp1 mtp2 mul_div_r nop pref rdhwr saa saad sc scd seqi_snei shift_r ssnop sync syscall
    teq_tne_r teqi_tnei_i terminate_block tge_tgeu_tlt_tltu_r tgei_tgeiu_tlti_tltiu_i tlbp tlbr
    tlbwi tlbwr trap_control unprev_i unprev_i_load unprev_i_store unprev_r v3mulu wait
run_routine-writes_zero Routine.shift_r i slot block_end = ground arith
run_routine-writes_zero Routine.j i slot block_end = j-writes_zero i slot block_end
run_routine-writes_zero Routine.jal i slot block_end = jal-writes_zero i slot block_end
run_routine-writes_zero Routine.bne_beq i slot block_end = bne_beq-writes_zero i slot
run_routine-writes_zero Routine.branch i slot block_end = branch-writes_zero i slot
run_routine-writes_zero Routine.unprev_i i slot block_end = ground arith
run_routine-writes_zero Routine.nop i slot block_end = ground arith
run_routine-writes_zero Routine.bne_beq_likely i slot block_end = bne_beq_likely-writes_zero i slot
run_routine-writes_zero Routine.branch_likely i slot block_end = branch_likely-writes_zero i slot
run_routine-writes_zero Routine.unprev_i_load i slot block_end = ground arith
run_routine-writes_zero Routine.unprev_i_store i slot block_end = ground arith
run_routine-writes_zero Routine.cache i slot block_end = ground arith
run_routine-writes_zero Routine.ll i slot block_end = (ll-writes_zero i).0 ∙ ground arith
run_routine-writes_zero Routine.bbit i slot block_end = bbit-writes_zero i slot
run_routine-writes_zero Routine.pref i slot block_end = ground arith
run_routine-writes_zero Routine.lld i slot block_end = (ll-writes_zero i).1 ∙ ground arith
run_routine-writes_zero Routine.sc i slot block_end = ground arith
run_routine-writes_zero Routine.terminate_block i slot block_end = ground arith
run_routine-writes_zero Routine.scd i slot block_end = ground arith
run_routine-writes_zero Routine.ssnop i slot block_end = ground arith
run_routine-writes_zero Routine.unprev_r i slot block_end = ground arith
run_routine-writes_zero Routine.jr i slot block_end = jr-writes_zero i slot
run_routine-writes_zero Routine.jalr i slot block_end = jalr-writes_zero i slot
run_routine-writes_zero Routine.syscall i slot block_end = ground arith
run_routine-writes_zero Routine.br i slot block_end = ground arith
run_routine-writes_zero Routine.sync i slot block_end = ground arith
run_routine-writes_zero Routine.move_from_lo_hi_r i slot block_end = ground arith
run_routine-writes_zero Routine.move_to_lo_hi_r i slot block_end = ground arith
run_routine-writes_zero Routine.mul_div_r i slot block_end = ground arith
run_routine-writes_zero Routine.tge_tgeu_tlt_tltu_r i slot block_end = ground arith
run_routine-writes_zero Routine.teq_tne_r i slot block_end = ground arith
run_routine-writes_zero Routine.tgei_tgeiu_tlti_tltiu_i i slot block_end = ground arith
run_routine-writes_zero Routine.teqi_tnei_i i slot block_end = ground arith
run_routine-writes_zero Routine.tlbr i slot block_end = ground arith
run_routine-writes_zero Routine.tlbwi i slot block_end = ground arith
run_routine-writes_zero Routine.tlbwr i slot block_end = ground arith
run_routine-writes_zero Routine.tlbp i slot block_end = ground arith
run_routine-writes_zero Routine.eret i slot block_end = ground arith
run_routine-writes_zero Routine.deret i slot block_end = ground arith
run_routine-writes_zero Routine.mfc0 i slot block_end = ground arith
run_routine-writes_zero Routine.mtc0 i slot block_end = mtc0-keeps i
run_routine-writes_zero Routine.di i slot block_end = ground arith
run_routine-writes_zero Routine.ei i slot block_end = ground arith
run_routine-writes_zero Routine.wait i slot block_end = ground arith
run_routine-writes_zero Routine.madd i slot block_end = ground arith
run_routine-writes_zero Routine.mtm0 i slot block_end = ground arith
run_routine-writes_zero Routine.mtp0 i slot block_end = ground arith
run_routine-writes_zero Routine.mtp1 i slot block_end = ground arith
run_routine-writes_zero Routine.mtp2 i slot block_end = ground arith
run_routine-writes_zero Routine.mtm1 i slot block_end = ground arith
run_routine-writes_zero Routine.mtm2 i slot block_end = ground arith
run_routine-writes_zero Routine.v3mulu i slot block_end = ground arith
run_routine-writes_zero Routine.saa i slot block_end = ground arith
run_routine-writes_zero Routine.saad i slot block_end = ground arith
run_routine-writes_zero Routine.seqi_snei i slot block_end = ground arith
run_routine-writes_zero Routine.ins_r i slot block_end = ground arith
run_routine-writes_zero Routine.ext_r i slot block_end = ground arith
run_routine-writes_zero Routine.rdhwr i slot block_end = ground arith

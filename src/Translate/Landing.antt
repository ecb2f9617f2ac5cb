-- ===== src/Translate/Landing.antt =====
-- Every branch in the code of a block stays inside the code of its instruction or leads right
-- behind it.
use type_ii_hypervisor_code.Common.{
  ℕ, ◌≡◌, refl, Bool, true, false, not, ◌&&◌, arith, List, [], ◌∷◌, ◌++◌, length, Result, and_then,
}
use type_ii_hypervisor_code.Instr.{IInfo}
use type_ii_hypervisor_code.Decode.{Routine, Decoded}
use type_ii_hypervisor_code.Decode.Slots.{is_jump}
use type_ii_hypervisor_code.Emit.{HostIns}
use type_ii_hypervisor_code.Emit.Control.{
  update_pc, checking_previlige, trap_control, syscall, sync, nop, cache, rdhwr, br, pref, eret,
  ssnop, deret, wait, terminate_block,
}
use type_ii_hypervisor_code.Emit.Cop0.{mfc0, tlbr, tlbwi, tlbwr, tlbp, di, ei}
use type_ii_hypervisor_code.Emit.Traps.{
  teq_tne_r, tge_tgeu_tlt_tltu_r, teqi_tnei_i, tgei_tgeiu_tlti_tltiu_i,
}
use type_ii_hypervisor_code.Emit.Arithmetic.{
  unprev_r, shift_r, mul_div_r, madd, move_from_lo_hi_r, move_to_lo_hi_r, ext_r, ins_r, unprev_i,
  seqi_snei,
}
use type_ii_hypervisor_code.Emit.Multiplier.{mtm0, mtm1, mtm2, mtp0, mtp1, mtp2, v3mulu}
use type_ii_hypervisor_code.Emit.Memory.{
  common_in_ls, unprev_i_load, unprev_i_store, common_in_sc, sc, scd, common_in_ll, ll, lld, saa,
  saad,
}
use type_ii_hypervisor_code.Emit.Branches.{and_link}
use type_ii_hypervisor_code.Emit.Jumps.{j, jal, jr, jalr}
use type_ii_hypervisor_code.Translate.Immediates.{is_immediate, is_sound, find_instr_case-is_sound}
use type_ii_hypervisor_code.Decode.Opcodes.{find_instr_case}
use type_ii_hypervisor_code.Emit.Landing.{
  lands, lands-append, is_branch_op, bne_beq-lands, bbit-lands, branch-lands, bne_beq_likely-lands,
  branch_likely-lands,
}
use type_ii_hypervisor_code.Emit.Mtc0Landing.{mtc0-lands}
use type_ii_hypervisor_code.Translate.{
  Code, around, code_of, run_routine, translate_alone, translate_pair, do_block_translation,
}

abbrev pub code_lands : Code → Bool
code_lands (Result.ok c) = lands c
code_lands _ = true

-- The routines that have neither a delay slot nor the opcode of the instruction as their own.
abbrev is_plain : Routine → Bool
is_plain Routine.mtc0 = false
is_plain r = not (is_immediate r) && not (is_jump r)

run_routine-plain :
    (r : Routine) (i : IInfo) (slot : Code) (block_end : ℕ)
    → is_plain r ≡ true
    → code_lands (run_routine r i slot block_end) ≡ true
unfolding run_routine lands length shift_r nop cache ll pref lld sc terminate_block scd ssnop
    unprev_r syscall br sync move_from_lo_hi_r move_to_lo_hi_r mul_div_r tge_tgeu_tlt_tltu_r
    teq_tne_r tgei_tgeiu_tlti_tltiu_i teqi_tnei_i tlbr tlbwi tlbwr tlbp eret deret mfc0 di ei wait
    madd mtm0 mtp0 mtp1 mtp2 mtm1 mtm2 v3mulu saa saad seqi_snei ins_r ext_r rdhwr trap_control
    checking_previlige common_in_sc common_in_ll
run_routine-plain r i slot block_end h = ground arith

run_routine-immediate :
    (r : Routine) (i : IInfo) (slot : Code) (block_end : ℕ)
    → is_immediate r ≡ true
    → is_branch_op i.opcode ≡ false
    → code_lands (run_routine r i slot block_end) ≡ true
unfolding run_routine lands length unprev_i unprev_i_load unprev_i_store common_in_ls
run_routine-immediate r i slot block_end h plain = ground arith

around-lands :
    (slot : Code) (f : List HostIns → List HostIns)
    → code_lands slot ≡ true
    → ((d : List HostIns) → lands d ≡ true → lands (f d) ≡ true)
    → code_lands (around slot f) ≡ true
unfolding and_then
around-lands (Result.ok d) f h k = k d h
around-lands Result.exited f h k = refl
around-lands Result.undefined f h k = refl
around-lands Result.waiting f h k = refl

module _ (i : IInfo) (slot : List HostIns) (h : lands slot ≡ true) where
  j-lands : (block_end : ℕ) → lands (j i slot block_end) ≡ true
  unfolding lands length j
  j-lands block_end = lands-append slot _ h (ground arith)

  jal-lands : (block_end : ℕ) → lands (jal i slot block_end) ≡ true
  unfolding lands length jal and_link
  jal-lands block_end = lands-append slot _ h (ground arith)

  jr-lands : lands (jr i slot) ≡ true
  unfolding lands length jr
  jr-lands = lands-append slot _ h (ground arith)

  jalr-lands : lands (jalr i slot) ≡ true
  unfolding lands length jalr
  jalr-lands = lands-append slot _ h (ground arith)

run_routine-jump :
    (r : Routine) (i : IInfo) (slot : Code) (block_end : ℕ)
    → is_jump r ≡ true
    → code_lands slot ≡ true
    → code_lands (run_routine r i slot block_end) ≡ true
unfolding run_routine
run_routine-jump Routine.j i slot block_end h s =
    around-lands slot _ s (λ d k. j-lands i d k block_end)
run_routine-jump Routine.jal i slot block_end h s =
    around-lands slot _ s (λ d k. jal-lands i d k block_end)
run_routine-jump Routine.jr i slot block_end h s = around-lands slot _ s (jr-lands i)
run_routine-jump Routine.jalr i slot block_end h s = around-lands slot _ s (jalr-lands i)
run_routine-jump Routine.bne_beq i slot block_end h s = around-lands slot _ s (bne_beq-lands i)
run_routine-jump Routine.bbit i slot block_end h s = around-lands slot _ s (bbit-lands i)
run_routine-jump Routine.branch i slot block_end h s = around-lands slot _ s (branch-lands i)
run_routine-jump Routine.bne_beq_likely i slot block_end h s =
    around-lands slot _ s (bne_beq_likely-lands i)
run_routine-jump Routine.branch_likely i slot block_end h s =
    around-lands slot _ s (branch_likely-lands i)
run_routine-jump r i slot block_end h s = ground arith

run_routine-lands :
    (r : Routine) (i : IInfo) (slot : Code) (block_end : ℕ)
    → is_sound (Decoded.call r i) ≡ true
    → code_lands slot ≡ true
    → code_lands (run_routine r i slot block_end) ≡ true
unfolding run_routine
run_routine-lands Routine.mtc0 i slot block_end h s = mtc0-lands i
run_routine-lands r i slot block_end h s = ground (
  arith,
  run_routine-plain r i slot block_end,
  run_routine-immediate r i slot block_end,
  run_routine-jump r i slot block_end,
)

code_of-lands :
    (d : Decoded) (slot : Code) (block_end : ℕ)
    → is_sound d ≡ true
    → code_lands slot ≡ true
    → code_lands (code_of d slot block_end) ≡ true
unfolding lands
code_of-lands (Decoded.call r i) slot block_end h s = run_routine-lands r i slot block_end h s
code_of-lands Decoded.nothing slot block_end h s = refl
code_of-lands Decoded.exits slot block_end h s = refl
code_of-lands Decoded.beyond slot block_end h s = refl

translate_alone-lands :
    (i : IInfo) (block_end : ℕ) → code_lands (translate_alone i block_end) ≡ true
unfolding translate_alone
translate_alone-lands i block_end =
    code_of-lands (find_instr_case i) Result.undefined block_end (find_instr_case-is_sound i) refl

translate_pair-lands :
    (i delay : IInfo) (block_end : ℕ) → code_lands (translate_pair i delay block_end) ≡ true
unfolding translate_pair
translate_pair-lands i delay block_end =
    code_of-lands (find_instr_case i) (translate_alone delay 0) block_end
      (find_instr_case-is_sound i) (translate_alone-lands delay 0)

both-lands :
    (first rest : Code)
    → code_lands first ≡ true
    → code_lands rest ≡ true
    → code_lands (and_then first (λ c. around rest (λ d. c ++ (update_pc ++ d)))) ≡ true
unfolding and_then lands length update_pc
both-lands (Result.ok c) (Result.ok d) h k = lands-append c _ h k
both-lands (Result.ok c) Result.exited h k = refl
both-lands (Result.ok c) Result.undefined h k = refl
both-lands (Result.ok c) Result.waiting h k = refl
both-lands Result.exited rest h k = refl
both-lands Result.undefined rest h k = refl
both-lands Result.waiting rest h k = refl

-- No branch in the code of a block, whatever its instructions, goes past the end of the code.
pub do_block_translation-lands :
    (block : List IInfo) (block_end : ℕ) → code_lands (do_block_translation block block_end) ≡ true
unfolding do_block_translation
do_block_translation-lands [] block_end = refl
do_block_translation-lands (i ∷ []) block_end = refl
do_block_translation-lands (i ∷ delay ∷ []) block_end =
    around-lands (translate_pair i delay block_end) _ (translate_pair-lands i delay block_end)
      (λ d k. k)
do_block_translation-lands (i ∷ next ∷ third ∷ rest) block_end =
    both-lands (translate_alone i block_end) (do_block_translation (next ∷ third ∷ rest) block_end)
      (translate_alone-lands i block_end)
      (do_block_translation-lands (next ∷ third ∷ rest) block_end)

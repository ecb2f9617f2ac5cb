-- ===== src/Tests/Code.antt =====
-- Instructions and blocks at concrete inputs.
use type_ii_hypervisor_code.Common.{
  ℕ, zero, suc, ◌+◌, ◌<◌, ◌≤◌, ◌^◌, Succeeds, ◌&&◌, ◌||◌, ◌%◌, ◌-◌, ◌≡◌, ◌↔◌, ◌⊎◌, refl, arith,
  true, false, ◌||◌, ◌==◌, some, none, if◌then◌else◌, Result,
}
use type_ii_hypervisor_code.Instr.{
  IInfo, parse, parse_fields, get_type, is_control, ext_bits, is_cntrl_inst_r, is_cntrl_inst_i,
}
use type_ii_hypervisor_code.Instr.Fetch.{get_block, run_of, get_block_lem, get_block-none_iff}
use type_ii_hypervisor_code.Decode.{select}
use type_ii_hypervisor_code.Decode.Slots.{
  takes_slot, is_taken_for_drotr, is_coprocessor_branch, control-slot,
}
use type_ii_hypervisor_code.Decode.Bounds.{is_beyond, is_unlisted, find_instr_case-is_beyond}
use type_ii_hypervisor_code.Decode.Opcodes.{find_instr_case, opcode_funs_array, opcode_0}
use type_ii_hypervisor_code.Decode.Special.{opcode0_0to5_bits}
use type_ii_hypervisor_code.Emit.{HostIns, encode}
use type_ii_hypervisor_code.Emit.Encoding.{parse-encode_r, parse-encode_i}
use type_ii_hypervisor_code.Emit.Offsets.{
  emitted_target, guest_target, branch_offset_iff, emitted_jump, guest_jump, emitted_jump_iff,
}
use type_ii_hypervisor_code.Emit.Memory.{ll}
use type_ii_hypervisor_code.Decode.{Routine}
use type_ii_hypervisor_code.Decode.Slots.{is_jump}
use type_ii_hypervisor_code.Emit.Zero.{writes_zero}
use type_ii_hypervisor_code.Translate.{run_routine, do_block_translation}
use type_ii_hypervisor_code.Translate.Slot.{is_ok, comes_back, do_block_translation-is_ok}
use type_ii_hypervisor_code.Translate.Landing.{code_lands, do_block_translation-lands}
use type_ii_hypervisor_code.Translate.Zero.{names_zero, run_routine-writes_zero}

-- addiu $2, $2, 1; beq $2, $3, 5; and nop everywhere else.
abbrev words : ℕ → ℕ
words n = if n == 0 then 0x2442_0001 else if n == 1 then 0x1043_0005 else 0

-- Only nop.
abbrev nops : ℕ → ℕ
nops n = 0

words-plain : (i : ℕ) → i < 1 → (parse (words (0 + i))).is_control_inst ≡ false
unfolding parse parse_fields get_type is_control is_cntrl_inst_i ext_bits
words-plain zero h = refl
words-plain (suc i) h = absurd (omega arith)

words-known : (i : ℕ) → i < 3 → comes_back (find_instr_case (parse (words (0 + i)))) ≡ true
unfolding parse parse_fields get_type is_control is_cntrl_inst_i is_cntrl_inst_r ext_bits
    find_instr_case opcode_funs_array select opcode_0 opcode0_0to5_bits
words-known zero h = refl
words-known (suc zero) h = refl
words-known (suc (suc zero)) h = refl
words-known (suc (suc (suc i))) h = absurd (omega arith)

get_block_lem_example : get_block 5 words 0 ≡ some (run_of words 0 2)
unfolding parse parse_fields get_type is_control is_cntrl_inst_i ext_bits
get_block_lem_example = get_block_lem 1 5 words 0 (omega arith) words-plain refl

get_block-none_iff_example :
    (get_block 2 nops 0 ≡ none) ↔ ((i : ℕ) → i < 2 → (parse (nops (0 + i))).is_control_inst ≡ false)
get_block-none_iff_example = get_block-none_iff 2 nops 0

control-slot_example :
    (parse 0x1043_0005).is_control_inst
    ≡ takes_slot (find_instr_case (parse 0x1043_0005))
      || is_taken_for_drotr (parse 0x1043_0005)
      || is_coprocessor_branch (parse 0x1043_0005)
control-slot_example = control-slot 0x1043_0005

-- A word of opcode 31 with function 61.
find_instr_case-is_beyond_example :
    is_beyond (find_instr_case (parse 0x7c00_003d)) ≡ is_unlisted (parse 0x7c00_003d)
find_instr_case-is_beyond_example = find_instr_case-is_beyond 0x7c00_003d

do_block_translation-is_ok_example : is_ok (do_block_translation (run_of words 0 2) 0x1004) ≡ true
unfolding parse parse_fields get_type is_control is_cntrl_inst_r ext_bits
do_block_translation-is_ok_example =
    do_block_translation-is_ok 1 words 0 0x1004 words-plain words-known refl

do_block_translation-lands_example :
    code_lands (do_block_translation (run_of words 0 2) 0x1004) ≡ true
do_block_translation-lands_example = do_block_translation-lands (run_of words 0 2) 0x1004

branch_offset_iff_example :
    (emitted_target 0xffff_ffff_8010_0000 9000 ≡ guest_target 0xffff_ffff_8010_0000 9000)
    ↔ ((9000 ≤ 8190) ⊎ (57343 ≤ 9000))
branch_offset_iff_example = branch_offset_iff 0xffff_ffff_8010_0000 9000 (omega arith) (omega arith)

-- j 0x400
abbrev jump : IInfo
jump = record (parse 0x0800_0100) { addr = 0x100 }

emitted_jump_iff_example :
    (emitted_jump jump 0xffff_ffff_8010_0000 ≡ guest_jump jump 0xffff_ffff_8010_0000) ↔ (
      ((0xffff_ffff_8010_0000 < 2 ^ 31) ⊎ (2 ^ 64 - 2 ^ 31 ≤ 0xffff_ffff_8010_0000))
      × (0xffff_ffff_8010_0000 % 2 ^ 28 < 2 ^ 28 - 4))
emitted_jump_iff_example = emitted_jump_iff jump 0xffff_ffff_8010_0000 (omega arith) (omega arith)

-- daddu $15, $13, $14
parse-encode_r_example :
    let i = parse (encode (HostIns.r_word 0 13 14 15 0 45)) in
    (i.opcode ≡ 0) × (i.rs ≡ 13) × (i.rt ≡ 14) × (i.rd ≡ 15) × (i.shft ≡ 0) × (i.func ≡ 45)
unfolding get_type
parse-encode_r_example =
    parse-encode_r 0 13 14 15 0 45 (omega arith) (omega arith) (omega arith) (omega arith)
      (omega arith) (omega arith) refl

-- ld $13, 216($12)
parse-encode_i_example :
    let i = parse (encode (HostIns.i_word 55 12 13 216)) in
    (i.opcode ≡ 55) × (i.i_rs ≡ 12) × (i.i_rt ≡ 13) × (i.imm ≡ 216)
unfolding get_type
parse-encode_i_example =
    parse-encode_i 55 12 13 216 (omega arith) (omega arith) (omega arith) (omega arith) refl

-- jalr $0, $2, with a load-linked of register 0 in its delay slot.
abbrev to_zero : IInfo
to_zero = record (parse 0x0040_0009) { opcode = 0; rs = 2; rd = 0 }

run_routine-writes_zero_example :
    Succeeds
      (λ code.
        writes_zero code
        ≡ names_zero Routine.jalr to_zero || (is_jump Routine.jalr && writes_zero (ll to_zero)))
      (run_routine Routine.jalr to_zero (Result.ok (ll to_zero)) 0x8000_0000)
run_routine-writes_zero_example =
    run_routine-writes_zero Routine.jalr to_zero (ll to_zero) 0x8000_0000

-- ===== src/Translate/Lost.antt =====
-- Instructions whose translation does not do what they ask for.
use type_ii_hypervisor_code.Common.{ℕ, ◌≡◌, ◌⊎◌, inl, inr, ap, ◌∙◌, true, arith, [], Result}
use type_ii_hypervisor_code.Instr.{IInfo}
use type_ii_hypervisor_code.Decode.{Routine, Decoded, select}
use type_ii_hypervisor_code.Decode.Special.{opcode0_0to5_bits}
use type_ii_hypervisor_code.Decode.Slots.{is_taken_for_drotr}
use type_ii_hypervisor_code.Decode.Opcodes.{
  find_instr_case, opcode_funs_array, opcode_0, opcode_1, as_drotr,
}
use type_ii_hypervisor_code.Emit.Arithmetic.{move_to_lo_hi_r, shift_r}
use type_ii_hypervisor_code.Translate.{code_of, run_routine, translate_alone, translate_pair}

module _ (i : IInfo) where
  find_instr_case-opcode_0 : i.opcode ≡ 0 → find_instr_case i ≡ opcode_0 i
  unfolding find_instr_case opcode_funs_array select
  find_instr_case-opcode_0 h = ap (λ n. select opcode_funs_array n i) h

  find_instr_case-opcode_1 : i.opcode ≡ 1 → find_instr_case i ≡ opcode_1 i
  unfolding find_instr_case opcode_funs_array select
  find_instr_case-opcode_1 h = ap (λ n. select opcode_funs_array n i) h

  opcode_0-move_to :
      (i.func ≡ 17) ⊎ (i.func ≡ 19) → opcode_0 i ≡ Decoded.call Routine.move_to_lo_hi_r i
  unfolding opcode_0 opcode0_0to5_bits select
  opcode_0-move_to (inl h) = ap (λ n. select opcode0_0to5_bits n i) h
  opcode_0-move_to (inr h) = ap (λ n. select opcode0_0to5_bits n i) h

  silent : (i.func ≡ 17) ⊎ (i.func ≡ 19) → move_to_lo_hi_r i ≡ []
  unfolding move_to_lo_hi_r
  silent h = ground arith

  opcode_1-drotr :
      is_taken_for_drotr i ≡ true → opcode_1 i ≡ Decoded.call Routine.shift_r (as_drotr i)
  unfolding opcode_1
  opcode_1-drotr h = ground arith

  -- mthi and mtlo, opcode 0 with the functions 17 and 19, are translated to no code at all.
  translate_alone-move_to :
      (block_end : ℕ)
      → i.opcode ≡ 0
      → (i.func ≡ 17) ⊎ (i.func ≡ 19)
      → translate_alone i block_end ≡ Result.ok []
  unfolding translate_alone run_routine
  translate_alone-move_to block_end h k =
      ap (λ d. code_of d Result.undefined block_end)
        (find_instr_case-opcode_0 h ∙ opcode_0-move_to k)
      ∙ ap Result.ok (silent k)

  -- A branch of opcode 1 on register 0 whose low six bits are those of drotr
  -- is translated as a shift: without the branch, and without its delay slot.
  translate_pair-drotr :
      (delay : IInfo) (block_end : ℕ)
      → is_taken_for_drotr i ≡ true
      → translate_pair i delay block_end ≡ Result.ok (shift_r (as_drotr i))
  unfolding translate_pair run_routine
  translate_pair-drotr delay block_end h =
      ap (λ d. code_of d (translate_alone delay 0) block_end)
        (find_instr_case-opcode_1 (ground arith) ∙ opcode_1-drotr h)

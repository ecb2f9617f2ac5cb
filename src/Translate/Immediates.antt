-- ===== src/Translate/Immediates.antt =====
-- Three routines put the opcode of the instruction into a word that they emit: the decoder calls
-- them for no branch.
use type_ii_hypervisor_code.Common.{
  ℕ, zero, suc, ◌+◌, ◌≡◌, refl, Bool, true, false, not, ◌||◌, arith, List, [], ◌∷◌,
}
use type_ii_hypervisor_code.Instr.{IInfo}
use type_ii_hypervisor_code.Decode.{Routine, Decoded, Handler, select}
use type_ii_hypervisor_code.Decode.Special.{opcode0_0to5_bits}
use type_ii_hypervisor_code.Decode.Regimm.{opcode1_16to20_bits}
use type_ii_hypervisor_code.Decode.Cop0.{opcode16_0to5_bits, opcode16_21to25_bits}
use type_ii_hypervisor_code.Decode.Special2.{opcode28_0to5_bits}
use type_ii_hypervisor_code.Decode.Special3.{opcode31_0to5_bits}
use type_ii_hypervisor_code.Decode.Opcodes.{
  find_instr_case, opcode_funs_array, opcode_0, opcode_1, opcode_16, opcode_18, opcode_28,
  opcode_31,
}
use type_ii_hypervisor_code.Decode.Tables.{AllFrom, select-All}
use type_ii_hypervisor_code.Emit.Landing.{is_branch_op}

-- The routines that put the opcode of the instruction into an emitted word.
abbrev pub is_immediate : Routine → Bool
is_immediate Routine.unprev_i = true
is_immediate Routine.unprev_i_load = true
is_immediate Routine.unprev_i_store = true
is_immediate _ = false

-- What an instruction is called with: where the opcode is emitted, it is not that of a branch.
abbrev pub is_sound : Decoded → Bool
is_sound (Decoded.call r i) = not (is_immediate r) || not (is_branch_op i.opcode)
is_sound _ = true

abbrev IsSound : Handler → Type 0
IsSound h = (i : IInfo) → is_sound (h i) ≡ true

opcode0-IsSound : AllFrom (λ n. IsSound) 0 opcode0_0to5_bits
unfolding opcode0_0to5_bits
opcode0-IsSound = ground arith

opcode1-IsSound : AllFrom (λ n. IsSound) 0 opcode1_16to20_bits
unfolding opcode1_16to20_bits
opcode1-IsSound = ground arith

opcode16_func-IsSound : AllFrom (λ n. IsSound) 0 opcode16_0to5_bits
unfolding opcode16_0to5_bits
opcode16_func-IsSound = ground arith

opcode16_rs-IsSound : AllFrom (λ n. IsSound) 0 opcode16_21to25_bits
unfolding opcode16_21to25_bits
opcode16_rs-IsSound = ground arith

opcode28-IsSound : AllFrom (λ n. IsSound) 0 opcode28_0to5_bits
unfolding opcode28_0to5_bits
opcode28-IsSound = ground arith

opcode31-IsSound : AllFrom (λ n. IsSound) 0 opcode31_0to5_bits
unfolding opcode31_0to5_bits
opcode31-IsSound = ground arith

opcode_0-IsSound : IsSound opcode_0
unfolding opcode_0
opcode_0-IsSound i = select-All IsSound 0 i.func opcode0_0to5_bits (λ i. refl) opcode0-IsSound i

opcode_28-IsSound : IsSound opcode_28
unfolding opcode_28
opcode_28-IsSound i = select-All IsSound 0 i.func opcode28_0to5_bits (λ i. refl) opcode28-IsSound i

opcode_31-IsSound : IsSound opcode_31
unfolding opcode_31
opcode_31-IsSound i = select-All IsSound 0 i.func opcode31_0to5_bits (λ i. refl) opcode31-IsSound i

opcode_1-IsSound : IsSound opcode_1
unfolding opcode_1
opcode_1-IsSound i =
    ground (arith, select-All IsSound 0 i.i_rt opcode1_16to20_bits (λ i. refl) opcode1-IsSound i)

opcode_16-IsSound : IsSound opcode_16
unfolding opcode_16
opcode_16-IsSound i = ground (
  arith,
  select-All IsSound 0 i.func opcode16_0to5_bits (λ i. refl) opcode16_func-IsSound i,
  select-All IsSound 0 i.rs opcode16_21to25_bits (λ i. refl) opcode16_rs-IsSound i,
)

opcode_18-IsSound : IsSound opcode_18
unfolding opcode_18
opcode_18-IsSound i = ground arith

-- The handler at position n is sound for the instructions of opcode n.
opcodes-IsSound :
    (i : IInfo) → AllFrom (λ n h. i.opcode ≡ n → is_sound (h i) ≡ true) 0 opcode_funs_array
unfolding opcode_funs_array
opcodes-IsSound i = ground (
  arith,
  opcode_0-IsSound i,
  opcode_1-IsSound i,
  opcode_16-IsSound i,
  opcode_18-IsSound i,
  opcode_28-IsSound i,
  opcode_31-IsSound i,
)

select-is_sound :
    (n index : ℕ) (table : List Handler) (i : IInfo)
    → AllFrom (λ n h. i.opcode ≡ n → is_sound (h i) ≡ true) n table
    → n + index ≡ i.opcode
    → is_sound (select table index i) ≡ true
unfolding select
select-is_sound n index [] i all e = refl
select-is_sound n zero (h ∷ table) i all e = all.0 (omega arith)
select-is_sound n (suc index) (h ∷ table) i all e =
    select-is_sound (suc n) index table i all.1 (omega arith)

pub find_instr_case-is_sound : (i : IInfo) → is_sound (find_instr_case i) ≡ true
unfolding find_instr_case
find_instr_case-is_sound i =
    select-is_sound 0 i.opcode opcode_funs_array i (opcodes-IsSound i) (omega arith)

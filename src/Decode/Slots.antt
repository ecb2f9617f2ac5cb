-- ===== src/Decode/Slots.antt =====
-- Which words go to a routine that takes the delay slot, and which read behind a table.
use type_ii_hypervisor_code.Common.{
  ℕ, ◌<◌, ◌≡◌, refl, sym, ap, ◌∙◌, Bool, true, false, not, ◌&&◌, ◌||◌, ◌==◌, leb, arith,
}
use type_ii_hypervisor_code.Instr.{
  IInfo, ext_bits, parse, parse_fields, get_type, is_control, is_cntrl_inst_r, is_cntrl_inst_i,
  is_cntrl_inst_j,
}
use type_ii_hypervisor_code.Decode.{Routine, Decoded, Handler, select}
use type_ii_hypervisor_code.Decode.Special.{opcode0_0to5_bits}
use type_ii_hypervisor_code.Decode.Regimm.{opcode1_16to20_bits}
use type_ii_hypervisor_code.Decode.Cop0.{opcode16_0to5_bits, opcode16_21to25_bits}
use type_ii_hypervisor_code.Decode.Special2.{opcode28_0to5_bits}
use type_ii_hypervisor_code.Decode.Special3.{opcode31_0to5_bits}
use type_ii_hypervisor_code.Decode.Tables.{
  AllFrom, select-AllFrom, select-All, parse_at, parse_fields-opcode, length-opcode0,
  length-opcode1, length-opcodes, ext_bits-lt_64, ext_bits-lt_32,
}
use type_ii_hypervisor_code.Decode.Opcodes.{
  find_instr_case, opcode_funs_array, opcode_0, opcode_1, opcode_16, opcode_18, opcode_28,
  opcode_31,
}

-- The branches and the jumps.
abbrev pub is_jump : Routine → Bool
is_jump Routine.j = true
is_jump Routine.jal = true
is_jump Routine.jr = true
is_jump Routine.jalr = true
is_jump Routine.bne_beq = true
is_jump Routine.branch = true
is_jump Routine.bne_beq_likely = true
is_jump Routine.branch_likely = true
is_jump Routine.bbit = true
is_jump _ = false

abbrev pub takes_slot : Decoded → Bool
takes_slot (Decoded.call r i) = is_jump r
takes_slot _ = false

-- The field rt of the branches of opcode 1.
abbrev is_branch_rt : ℕ → Bool
is_branch_rt t = leb t 3 || (leb 16 t && leb t 19)

-- A branch of opcode 1 on register 0 whose low six bits are those of drotr.
abbrev pub is_taken_for_drotr : IInfo → Bool
is_taken_for_drotr i =
    i.opcode == 1 && (i.i_rs == 0 && (ext_bits i.encoding 0 5 == 58 && is_branch_rt i.i_rt))

-- The branches of the coprocessors, which the tables do not know.
abbrev pub is_coprocessor_branch : IInfo → Bool
is_coprocessor_branch i =
    ((i.opcode == 16 || i.opcode == 18) && i.rs == 8)
    || (i.opcode == 17 && (i.rs == 8 || i.rs == 9 || i.rs == 10))

abbrev NoSlot : Handler → Type 0
NoSlot h = (i : IInfo) → takes_slot (h i) ≡ false

opcode0-slots :
    AllFrom (λ n h. (i : IInfo) → takes_slot (h i) ≡ n == 8 || n == 9) 0 opcode0_0to5_bits
unfolding opcode0_0to5_bits
opcode0-slots = ground arith

opcode1-slots :
    AllFrom (λ n h. (i : IInfo) → takes_slot (h i) ≡ is_branch_rt n) 0 opcode1_16to20_bits
unfolding opcode1_16to20_bits
opcode1-slots = ground arith

opcode16_rs-slots : AllFrom (λ n. NoSlot) 0 opcode16_21to25_bits
unfolding opcode16_21to25_bits
opcode16_rs-slots = ground arith

opcode16_func-slots : AllFrom (λ n. NoSlot) 0 opcode16_0to5_bits
unfolding opcode16_0to5_bits
opcode16_func-slots = ground arith

opcode28-slots : AllFrom (λ n. NoSlot) 0 opcode28_0to5_bits
unfolding opcode28_0to5_bits
opcode28-slots = ground arith

opcode31-slots : AllFrom (λ n. NoSlot) 0 opcode31_0to5_bits
unfolding opcode31_0to5_bits
opcode31-slots = ground arith

opcode_0-slot : (i : IInfo) → i.func < 64 → takes_slot (opcode_0 i) ≡ i.func == 8 || i.func == 9
unfolding opcode_0
opcode_0-slot i h =
    select-AllFrom (λ n h. (i : IInfo) → takes_slot (h i) ≡ n == 8 || n == 9) 0 i.func i.func
      opcode0_0to5_bits opcode0-slots (rw length-opcode0 h) (omega arith) i

opcode_1-slot :
    (i : IInfo)
    → i.i_rt < 32
    → takes_slot (opcode_1 i)
      ≡ not (ext_bits i.encoding 0 5 == 58 && i.i_rs == 0) && is_branch_rt i.i_rt
unfolding opcode_1
opcode_1-slot i h = ground (
  arith,
  select-AllFrom (λ n h. (i : IInfo) → takes_slot (h i) ≡ is_branch_rt n) 0 i.i_rt i.i_rt
      opcode1_16to20_bits opcode1-slots (rw length-opcode1 h) (omega arith) i,
)

opcode_16-slot : NoSlot opcode_16
unfolding opcode_16
opcode_16-slot i = ground (
  arith,
  select-All NoSlot 0 i.func opcode16_0to5_bits (λ i. refl) opcode16_func-slots i,
  select-All NoSlot 0 i.rs opcode16_21to25_bits (λ i. refl) opcode16_rs-slots i,
)

opcode_18-slot : NoSlot opcode_18
unfolding opcode_18
opcode_18-slot i = ground arith

opcode_28-slot : NoSlot opcode_28
unfolding opcode_28
opcode_28-slot i = select-All NoSlot 0 i.func opcode28_0to5_bits (λ i. refl) opcode28-slots i

opcode_31-slot : NoSlot opcode_31
unfolding opcode_31
opcode_31-slot i = select-All NoSlot 0 i.func opcode31_0to5_bits (λ i. refl) opcode31-slots i

abbrev Agrees : ℕ → ℕ → Handler → Type 0
Agrees word n h =
    let i = parse_at word n in
    i.is_control_inst ≡ takes_slot (h i) || is_taken_for_drotr i || is_coprocessor_branch i

opcode_0-Agrees : (word : ℕ) → Agrees word 0 opcode_0
unfolding is_cntrl_inst_r is_cntrl_inst_i is_control parse_fields get_type
opcode_0-Agrees word = ground (arith, opcode_0-slot (parse_at word 0) (ext_bits-lt_64 word 0))

opcode_1-Agrees : (word : ℕ) → Agrees word 1 opcode_1
unfolding is_cntrl_inst_r is_cntrl_inst_i is_control parse_fields get_type
opcode_1-Agrees word = ground (arith, opcode_1-slot (parse_at word 1) (ext_bits-lt_32 word 16))

opcodes-Agrees : (word : ℕ) → AllFrom (Agrees word) 0 opcode_funs_array
unfolding opcode_funs_array is_cntrl_inst_r is_cntrl_inst_i is_cntrl_inst_j is_control parse_fields
    get_type
opcodes-Agrees word = ground (
  arith,
  opcode_0-Agrees word,
  opcode_1-Agrees word,
  opcode_16-slot (parse_at word 16),
  opcode_18-slot (parse_at word 18),
  opcode_28-slot (parse_at word 28),
  opcode_31-slot (parse_at word 31),
)

-- A word is a control instruction for IInfo exactly if it goes to a routine that takes the delay
-- slot, except for the branches of the coprocessors and the branches that are taken for drotr.
pub control-slot :
    (word : ℕ)
    → (parse word).is_control_inst
      ≡ takes_slot (find_instr_case (parse word))
        || is_taken_for_drotr (parse word)
        || is_coprocessor_branch (parse word)
unfolding parse find_instr_case
control-slot word =
    let oc = ext_bits word 26 31 in
    let i = parse word in
    select-AllFrom (Agrees word) 0 oc oc opcode_funs_array (opcodes-Agrees word)
      (rw length-opcodes (ext_bits-lt_64 word 26)) (omega arith)
    ∙ ap
        (λ n.
          takes_slot (select opcode_funs_array n i)
          || is_taken_for_drotr i
          || is_coprocessor_branch i)
        (sym (parse_fields-opcode word oc (get_type oc)))

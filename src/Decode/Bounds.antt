-- ===== src/Decode/Bounds.antt =====
-- The words for which the decoder reads behind one of its tables.
use type_ii_hypervisor_code.Common.{
  length, ℕ, zero, suc, ◌<◌, ◌≡◌, ap, ◌∙◌, Bool, true, false, ◌&&◌, ◌||◌, ◌==◌, leb, arith, List,
  [], ◌∷◌,
}
use type_ii_hypervisor_code.Instr.{IInfo, ext_bits, parse, parse_fields, get_type}
use type_ii_hypervisor_code.Decode.{Decoded, Handler, select}
use type_ii_hypervisor_code.Decode.Special.{opcode0_0to5_bits}
use type_ii_hypervisor_code.Decode.Regimm.{opcode1_16to20_bits}
use type_ii_hypervisor_code.Decode.Cop0.{opcode16_0to5_bits, opcode16_21to25_bits}
use type_ii_hypervisor_code.Decode.Special2.{opcode28_0to5_bits}
use type_ii_hypervisor_code.Decode.Special3.{opcode31_0to5_bits}
use type_ii_hypervisor_code.Decode.Tables.{
  AllFrom, select-AllFrom, parse_at, parse_fields-opcode, length-opcodes, ext_bits-lt_64,
  ext_bits-lt_32,
}
use type_ii_hypervisor_code.Decode.Opcodes.{
  find_instr_case, opcode_funs_array, opcode_0, opcode_1, opcode_16, opcode_18, opcode_28,
  opcode_31,
}

abbrev pub is_beyond : Decoded → Bool
is_beyond Decoded.beyond = true
is_beyond _ = false

abbrev IsWithin : Handler → Type 0
IsWithin h = (i : IInfo) → is_beyond (h i) ≡ false

-- Where no handler of a table reads behind a table, only an index behind it does.
select-is_beyond :
    (n index : ℕ) (table : List Handler) (i : IInfo)
    → AllFrom (λ n. IsWithin) n table
    → is_beyond (select table index i) ≡ leb (length table) index
unfolding select length
select-is_beyond n index [] i all = ground arith
select-is_beyond n zero (h ∷ table) i all = all.0 i ∙ ground arith
select-is_beyond n (suc index) (h ∷ table) i all =
    select-is_beyond (suc n) index table i all.1 ∙ ground arith

opcode_0-is_beyond : (i : IInfo) → i.func < 64 → is_beyond (opcode_0 i) ≡ false
unfolding opcode_0 opcode0_0to5_bits length
opcode_0-is_beyond i h = select-is_beyond 0 i.func opcode0_0to5_bits i (ground arith) ∙ ground arith

opcode_1-is_beyond : (i : IInfo) → i.i_rt < 32 → is_beyond (opcode_1 i) ≡ false
unfolding opcode_1 opcode1_16to20_bits length
opcode_1-is_beyond i h =
    ground (arith, select-is_beyond 0 i.i_rt opcode1_16to20_bits i (ground arith))

opcode_16-is_beyond :
    (i : IInfo) → i.rs < 32 → is_beyond (opcode_16 i) ≡ i.rs == 16 && leb 33 i.func
unfolding opcode_16 opcode16_0to5_bits opcode16_21to25_bits length
opcode_16-is_beyond i h = ground (
  arith,
  select-is_beyond 0 i.func opcode16_0to5_bits i (ground arith),
  select-is_beyond 0 i.rs opcode16_21to25_bits i (ground arith),
)

opcode_18-is_beyond : (i : IInfo) → is_beyond (opcode_18 i) ≡ false
unfolding opcode_18
opcode_18-is_beyond i = ground arith

opcode_28-is_beyond : (i : IInfo) → i.func < 64 → is_beyond (opcode_28 i) ≡ false
unfolding opcode_28 opcode28_0to5_bits length
opcode_28-is_beyond i h =
    select-is_beyond 0 i.func opcode28_0to5_bits i (ground arith) ∙ ground arith

opcode_31-is_beyond : (i : IInfo) → is_beyond (opcode_31 i) ≡ leb 60 i.func
unfolding opcode_31 opcode31_0to5_bits length
opcode_31-is_beyond i = select-is_beyond 0 i.func opcode31_0to5_bits i (ground arith)

-- The functions of opcode 16 from 33 on and those of opcode 31 from 60 on.
abbrev pub is_unlisted : IInfo → Bool
is_unlisted i =
    (i.opcode == 16 && (i.rs == 16 && leb 33 i.func)) || (i.opcode == 31 && leb 60 i.func)

abbrev Bounded : ℕ → ℕ → Handler → Type 0
Bounded word n h = let i = parse_at word n in is_beyond (h i) ≡ is_unlisted i

opcodes-Bounded : (word : ℕ) → AllFrom (Bounded word) 0 opcode_funs_array
unfolding opcode_funs_array parse_fields get_type
opcodes-Bounded word = ground (
  arith,
  opcode_0-is_beyond (parse_at word 0) (ext_bits-lt_64 word 0),
  opcode_1-is_beyond (parse_at word 1) (ext_bits-lt_32 word 16),
  opcode_16-is_beyond (parse_at word 16) (ext_bits-lt_32 word 21),
  opcode_18-is_beyond (parse_at word 18),
  opcode_28-is_beyond (parse_at word 28) (ext_bits-lt_64 word 0),
  opcode_31-is_beyond (parse_at word 31),
)

-- The decoder reads behind one of its tables exactly for the words of opcode 16 with rs 16 and a
-- function from 33 on, and for those of opcode 31 with a function from 60 on.
pub find_instr_case-is_beyond :
    (word : ℕ) → is_beyond (find_instr_case (parse word)) ≡ is_unlisted (parse word)
unfolding parse find_instr_case
find_instr_case-is_beyond word =
    let oc = ext_bits word 26 31 in
    let i = parse word in
    ap (λ n. is_beyond (select opcode_funs_array n i)) (parse_fields-opcode word oc (get_type oc))
    ∙ select-AllFrom (Bounded word) 0 oc oc opcode_funs_array (opcodes-Bounded word)
        (rw length-opcodes (ext_bits-lt_64 word 26)) (omega arith)

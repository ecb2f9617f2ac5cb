-- ===== src/Translate/Slot.antt =====
-- The translation of the delay slot, and of whole blocks that are fetched from guest memory.
use type_ii_hypervisor_code.Common.{
  ℕ, zero, suc, ◌+◌, ◌<◌, ◌≡◌, refl, ◌∙◌, Bool, true, false, not, ◌&&◌, ◌||◌, arith, List, ◌∷◌,
  Result, and_then,
}
use type_ii_hypervisor_code.Instr.{IInfo, parse}
use type_ii_hypervisor_code.Instr.Fetch.{run_of}
use type_ii_hypervisor_code.Decode.{Routine, Decoded}
use type_ii_hypervisor_code.Decode.Opcodes.{find_instr_case}
use type_ii_hypervisor_code.Decode.Slots.{is_jump, takes_slot, control-slot}
use type_ii_hypervisor_code.Decode.Bounds.{is_beyond, is_unlisted, find_instr_case-is_beyond}
use type_ii_hypervisor_code.Emit.{HostIns}
use type_ii_hypervisor_code.Translate.{
  Code, around, code_of, run_routine, translate_alone, translate_pair, do_block_translation,
}

abbrev pub is_undefined : Code → Bool
is_undefined Result.undefined = true
is_undefined _ = false

run_routine-is_undefined :
    (r : Routine) (i : IInfo) (block_end : ℕ)
    → is_undefined (run_routine r i Result.undefined block_end) ≡ is_jump r
unfolding run_routine and_then
run_routine-is_undefined r i block_end = ground arith

abbrev pub is_ok : Code → Bool
is_ok (Result.ok c) = true
is_ok _ = false

-- A handler of the source comes back: it calls a routine or does nothing.
abbrev pub comes_back : Decoded → Bool
comes_back (Decoded.call r i) = true
comes_back Decoded.nothing = true
comes_back _ = false

code_of-is_undefined :
    (d : Decoded) (block_end : ℕ)
    → is_undefined (code_of d Result.undefined block_end) ≡ takes_slot d || is_beyond d
code_of-is_undefined (Decoded.call r i) block_end =
    ground (arith, run_routine-is_undefined r i block_end)
code_of-is_undefined Decoded.nothing block_end = refl
code_of-is_undefined Decoded.exits block_end = refl
code_of-is_undefined Decoded.beyond block_end = refl

-- The translation of an instruction that stands alone, as in a delay slot, uses what no function
-- returned exactly if it is a branch or jump, whose own delay slot is NULL, or if the decoder
-- reads behind a table.
translate_alone-is_undefined :
    (word block_end : ℕ)
    → is_undefined (translate_alone (parse word) block_end)
      ≡ takes_slot (find_instr_case (parse word)) || is_unlisted (parse word)
unfolding translate_alone
translate_alone-is_undefined word block_end =
    rw (← find_instr_case-is_beyond word)
      (code_of-is_undefined (find_instr_case (parse word)) block_end)

run_routine-is_ok :
    (r : Routine) (i : IInfo) (slot : Code) (block_end : ℕ)
    → is_ok (run_routine r i slot block_end) ≡ not (is_jump r) || is_ok slot
unfolding run_routine and_then
run_routine-is_ok r i slot block_end = ground arith

code_of-is_ok :
    (d : Decoded) (slot : Code) (block_end : ℕ)
    → is_ok (code_of d slot block_end) ≡ comes_back d && (not (takes_slot d) || is_ok slot)
code_of-is_ok (Decoded.call r i) slot block_end = run_routine-is_ok r i slot block_end
code_of-is_ok Decoded.nothing slot block_end = refl
code_of-is_ok Decoded.exits slot block_end = refl
code_of-is_ok Decoded.beyond slot block_end = refl

around-is_ok : (slot : Code) (f : List HostIns → List HostIns) → is_ok (around slot f) ≡ is_ok slot
unfolding and_then
around-is_ok (Result.ok d) f = refl
around-is_ok Result.exited f = refl
around-is_ok Result.undefined f = refl
around-is_ok Result.waiting f = refl

do_block-step :
    (i : IInfo) (words : ℕ → ℕ) (at n block_end : ℕ)
    → is_ok (do_block_translation (i ∷ run_of words at (suc n)) block_end)
      ≡ is_ok (translate_alone i block_end)
        && is_ok (do_block_translation (run_of words at (suc n)) block_end)
unfolding do_block_translation run_of and_then
do_block-step i words at zero block_end = ground arith
do_block-step i words at (suc n) block_end = ground arith

-- A word that is no control instruction and that the decoder knows translates on its own.
translate_alone-is_ok :
    (word block_end : ℕ)
    → (parse word).is_control_inst ≡ false
    → comes_back (find_instr_case (parse word)) ≡ true
    → is_ok (translate_alone (parse word) block_end) ≡ true
unfolding translate_alone
translate_alone-is_ok word block_end plain known = ground (
  arith,
  control-slot word,
  code_of-is_ok (find_instr_case (parse word)) Result.undefined block_end,
)

translate_pair-is_ok :
    (word delay block_end : ℕ)
    → comes_back (find_instr_case (parse word)) ≡ true
    → (parse delay).is_control_inst ≡ false
    → comes_back (find_instr_case (parse delay)) ≡ true
    → is_ok (translate_pair (parse word) (parse delay) block_end) ≡ true
unfolding translate_pair
translate_pair-is_ok word delay block_end known plain known' = ground (
  arith,
  translate_alone-is_ok delay 0 plain known',
  code_of-is_ok (find_instr_case (parse word)) (translate_alone (parse delay) 0) block_end,
)

-- A block of guest memory translates to code if the decoder knows its words, if its first n words
-- are no control instructions, and if the word in its delay slot is none either.
pub do_block_translation-is_ok :
    (n : ℕ) (words : ℕ → ℕ) (at block_end : ℕ)
    → ((i : ℕ) → i < n → (parse (words (at + i))).is_control_inst ≡ false)
    → ((i : ℕ) → i < suc (suc n) → comes_back (find_instr_case (parse (words (at + i)))) ≡ true)
    → (parse (words (at + suc n))).is_control_inst ≡ false
    → is_ok (do_block_translation (run_of words at (suc n)) block_end) ≡ true
unfolding do_block_translation run_of and_then
do_block_translation-is_ok zero words at block_end plain known slot =
    let start : at + 0 ≡ at = omega arith in
    around-is_ok (translate_pair (parse (words at)) (parse (words (at + 1))) block_end) _
    ∙ translate_pair-is_ok (words at) (words (at + 1)) block_end
        (rw start at (known 0 (omega arith))) slot (known 1 (omega arith))
do_block_translation-is_ok (suc n) words at block_end plain known slot =
    let start : at + 0 ≡ at = omega arith in
    let move : (i : ℕ) → at + suc i ≡ at + 1 + i = λ i. omega arith in
    let first =
      translate_alone-is_ok (words at) block_end (rw start at (plain 0 (omega arith)))
        (rw start at (known 0 (omega arith))) in
    let rest =
      do_block_translation-is_ok n words (at + 1) block_end
        (λ i k. rw move at (plain (suc i) (omega arith)))
        (λ i k. rw move at (known (suc i) (omega arith))) (rw move at slot) in
    do_block-step (parse (words at)) words (at + 1) n block_end ∙ rw (first, rest)

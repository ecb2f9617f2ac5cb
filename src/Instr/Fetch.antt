-- ===== src/Instr/Fetch.antt =====
-- InstBlock.cpp: the instructions of a block, up to a control instruction and its delay slot.
-- `words` is guest memory from the start of the block on. The loop has no bound in the source; here
-- it runs on fuel, and `none` means that the fuel ran out.
use mathlib.Core.Option
use type_ii_hypervisor_code.Common.{
  ℕ, zero, suc, ◌+◌, ◌<◌, ◌≡◌, refl, ap, ◌∙◌, Bool, true, false, Option, none, some, List, [], ◌∷◌,
  arith, ◌↔◌,
}
use type_ii_hypervisor_code.Instr.{IInfo, parse}

-- One round: after a control instruction the delay slot ends the block.
abbrev round : Bool → IInfo → IInfo → Option (List IInfo) → Option (List IInfo)
round true i delayslot rest = some (i ∷ delayslot ∷ [])
round false i delayslot rest = Option.map (λ b. i ∷ b) rest

unfoldable pub get_block : ℕ → (ℕ → ℕ) → ℕ → Option (List IInfo)
get_block zero words at = none
get_block (suc fuel) words at =
    let i = parse (words at) in
    let rest = get_block fuel words (at + 1) in
    round i.is_control_inst i (parse (words (at + 1))) rest

-- The instructions at `at` and the `count` positions behind it.
unfoldable pub run_of : (ℕ → ℕ) → ℕ → ℕ → List IInfo
run_of words at zero = parse (words at) ∷ []
run_of words at (suc count) = parse (words at) ∷ run_of words (at + 1) count

-- If the word at distance n is the first control instruction, then any fuel above n is enough, and
-- the block is the n words before it, it and the word behind it, the delay slot.
pub get_block_lem :
    (n fuel : ℕ) (words : ℕ → ℕ) (at : ℕ)
    → n < fuel
    → ((i : ℕ) → i < n → (parse (words (at + i))).is_control_inst ≡ false)
    → (parse (words (at + n))).is_control_inst ≡ true
    → get_block fuel words at ≡ some (run_of words at (suc n))
unfolding get_block run_of
get_block_lem n zero words at h before here = absurd (omega arith)
get_block_lem zero (suc fuel) words at h before here =
    let start : at + 0 ≡ at = omega arith in
    ap (λ b. round b (parse (words at)) (parse (words (at + 1))) (get_block fuel words (at + 1)))
      (rw start at here)
get_block_lem (suc n) (suc fuel) words at h before here =
    let start : at + 0 ≡ at = omega arith in
    let move : (i : ℕ) → at + suc i ≡ at + 1 + i = λ i. omega arith in
    let rest =
      get_block_lem n fuel words (at + 1) (omega arith)
        (λ i k. rw move at (before (suc i) (omega arith))) (rw move at here) in
    ap (λ b. round b (parse (words at)) (parse (words (at + 1))) (get_block fuel words (at + 1)))
      (rw start at (before 0 (omega arith)))
    ∙ ap (Option.map (λ b. parse (words at) ∷ b)) rest

round-none :
    (b : Bool) (i d : IInfo) (rest : Option (List IInfo))
    → round b i d rest ≡ none
    → (b ≡ false) × (rest ≡ none)
round-none true i d rest h = cc
round-none false i d none h = (refl, refl)
round-none false i d (some l) h = cc

get_block-none :
    (fuel : ℕ) (words : ℕ → ℕ) (at : ℕ)
    → get_block fuel words at ≡ none
    → (i : ℕ) → i < fuel
    → (parse (words (at + i))).is_control_inst ≡ false
unfolding get_block
get_block-none zero words at h i k = absurd (omega arith)
get_block-none (suc fuel) words at h zero k =
    let start : at + 0 ≡ at = omega arith in rw start (round-none _ _ _ _ h).0
get_block-none (suc fuel) words at h (suc i) k =
    let move : at + suc i ≡ at + 1 + i = omega arith in
    rw move (get_block-none fuel words (at + 1) (round-none _ _ _ _ h).1 i (omega arith))

get_block-some :
    (fuel : ℕ) (words : ℕ → ℕ) (at : ℕ)
    → ((i : ℕ) → i < fuel → (parse (words (at + i))).is_control_inst ≡ false)
    → get_block fuel words at ≡ none
unfolding get_block
get_block-some zero words at h = refl
get_block-some (suc fuel) words at h =
    let start : at + 0 ≡ at = omega arith in
    let move : (i : ℕ) → at + suc i ≡ at + 1 + i = λ i. omega arith in
    let rest = get_block-some fuel words (at + 1) (λ i k. rw move at (h (suc i) (omega arith))) in
    ap (λ b. round b (parse (words at)) (parse (words (at + 1))) (get_block fuel words (at + 1)))
      (rw start at (h 0 (omega arith)))
    ∙ ap (Option.map (λ b. parse (words at) ∷ b)) rest

-- The fuel runs out exactly if none of that many words is a control instruction.
pub get_block-none_iff :
    (fuel : ℕ) (words : ℕ → ℕ) (at : ℕ)
    → (get_block fuel words at ≡ none)
      ↔ ((i : ℕ) → i < fuel → (parse (words (at + i))).is_control_inst ≡ false)
get_block-none_iff fuel words at = (get_block-none fuel words at, get_block-some fuel words at)

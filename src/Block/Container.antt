-- ===== src/Block/Container.antt =====
-- The container keeps what is pushed, across its growth.
use type_ii_hypervisor_code.Common.{
  ℕ, zero, suc, ◌+◌, ◌*◌, ◌^◌, ◌<◌, ◌≤◌, ◌≡◌, refl, ◌∙◌, arith, ◌==◌, ==_refl, ==-eq-false,
  if◌then◌else◌,
}
use native.Mathlib.Decide.{dec_lt}
use type_ii_hypervisor_code.Word.{u32}
use type_ii_hypervisor_code.Block.{TranslationBlock, new_block, expand_block, push_back}

-- The sizes agree, there is room for one more word, and no more is allocated than growth explains.
pub record IsValid (b : TranslationBlock) : Type 0 where
  pub place : b.current_location ≡ b.current_size
  pub room : b.current_size < b.allocated_size
  pub growth : b.allocated_size ≤ 2048 + 2 * b.current_size

push_back-IsValid :
    (b : TranslationBlock) (value : ℕ)
    → IsValid b
    → b.current_size < 2 ^ 28
    → IsValid (push_back b value) × ((push_back b value).current_size ≡ b.current_size + 1)
unfolding push_back expand_block
push_back-IsValid b value v few = (
  record {
    place = ground (arith, v.place, v.room, v.growth);
    room = ground (arith, v.place, v.room, v.growth);
    growth = ground (arith, v.place, v.room, v.growth);
  },
  ground arith,
)

push_back-container :
    (b : TranslationBlock) (value i : ℕ)
    → IsValid b
    → i ≤ b.current_size
    → (push_back b value).container i ≡ (if i == b.current_size then u32 value else b.container i)
unfolding push_back expand_block
push_back-container b value i v h = ground (arith, v.place, v.room)

-- The first n values of a sequence, pushed in order.
pub push_first : ℕ → (ℕ → ℕ) → TranslationBlock → TranslationBlock
push_first zero values b = b
push_first (suc n) values b = push_back (push_first n values b) (values n)

push_first-IsValid :
    (n : ℕ) (values : ℕ → ℕ)
    → n ≤ 2 ^ 28
    → let after = push_first n values new_block in IsValid after × (after.current_size ≡ n)
unfolding push_first new_block
push_first-IsValid zero values h =
    (record { place = refl; room = omega arith; growth = omega arith }, refl)
push_first-IsValid (suc n) values h =
    let (valid, size) = push_first-IsValid n values (omega arith) in
    let (valid', size') =
      push_back-IsValid (push_first n values new_block) (values n) valid (omega (arith, size)) in
    (valid', omega (arith, size, size'))

push_first-pushed :
    (n : ℕ) (values : ℕ → ℕ) (i : ℕ)
    → n ≤ 2 ^ 28
    → i < n
    → (push_first n values new_block).container i ≡ u32 (values i)
unfolding push_first
push_first-pushed zero values i h lt = absurd (omega arith)
push_first-pushed (suc n) values i h lt =
    let b = push_first n values new_block in
    let (valid, size) = push_first-IsValid n values (omega arith) in
    push_back-container b (values n) i valid (omega (arith, size)) ∙ elim (dec_lt i n) [
      | yes earlier ↦
          rw (==-eq-false i b.current_size (omega (arith, size)))
            (push_first-pushed n values i (omega arith) earlier)
      | no now ↦ let here : i ≡ n = omega arith in rw (size, here, ==_refl)
    ]

-- After n ≤ 2 ^ 28 instructions have been pushed into a new container, it has the size n, more room
-- than n, and every one of them, as 32 bits, in the order in which they were pushed, however often
-- the container has grown.
pub push_first-container :
    (n : ℕ) (values : ℕ → ℕ) (i : ℕ)
    → n ≤ 2 ^ 28
    → i < n
    → let after = push_first n values new_block in
      (after.current_size ≡ n) × (n < after.allocated_size) × (after.container i ≡ u32 (values i))
push_first-container n values i h lt =
    let (valid, size) = push_first-IsValid n values h in
    (size, omega (arith, size, valid.room), push_first-pushed n values i h lt)

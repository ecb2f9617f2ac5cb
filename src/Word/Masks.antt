-- ===== src/Word/Masks.antt =====
-- Masks: what `&`, `|` and `~` do with contiguous masks and with each other, for every word.
use native.Mathlib.Nat.{one-le-pow, pow-le-pow_right}
use type_ii_hypervisor_code.Common.{
  ℕ, zero, suc, ◌==◌, ◌+◌, ◌-◌, ◌*◌, ◌/◌, ◌%◌, ◌^◌, ◌≤◌, ◌<◌, bit_and, bit_or, ◌≡◌, refl, ap, sym,
  ◌∙◌, Bool, true, false, not, ◌&&◌, arith, ltb, leb, inl, inr, leb→le, Bool-cases, if◌then◌else◌,
}
use type_ii_hypervisor_code.Word.{bit, not64}
use type_ii_hypervisor_code.Word.Bits.{
  bit-zero, bit-and, bit-or, bit-not, bit-shr, bit-mul, bit-mod, bit-high, eq_of_bits,
}

-- A mask of k low bits.
pub bit-low_mask : (k i : ℕ) → bit (2 ^ k - 1) i ≡ ltb i k
bit-low_mask k i =
    let same : 2 ^ k - 1 - 0 ≡ 2 ^ k - 1 = omega arith in
    rw same at (bit-not k 0 i (one-le-pow k 2 (omega arith))) ∙ rw bit-zero (ground arith)

pub and-low_mask : (k x : ℕ) → bit_and x (2 ^ k - 1) ≡ x % 2 ^ k
and-low_mask k x = eq_of_bits _ _ (λ i. rw (bit-and, bit-low_mask, bit-mod) (ground arith))

-- A mask that clears the k low bits of a word of w bits.
high_mask_bits :
    (w k x i : ℕ)
    → x < 2 ^ w
    → bit x i && (ltb i w && not (ltb i k)) ≡ leb k i && bit x (k + (i - k))
high_mask_bits w k x i h = elim (Bool-cases (leb k i)) [
  | inl low ↦
      let here : k + (i - k) ≡ i = omega (arith, leb→le k i low) in
      rw here (ground (arith, bit-high x w i h))
  | inr up ↦ ground arith
]

pub and-high_mask :
    (w k x : ℕ) → k ≤ w → x < 2 ^ w → bit_and x (2 ^ w - 1 - (2 ^ k - 1)) ≡ x / 2 ^ k * 2 ^ k
and-high_mask w k x le h =
    let small : 2 ^ k - 1 < 2 ^ w =
      omega (arith, pow-le-pow_right {n = 2} (omega arith) le, one-le-pow k 2 (omega arith)) in
    eq_of_bits _ _ (λ i.
      rw (bit-and, bit-not w (2 ^ k - 1) i small, bit-low_mask, bit-mul, bit-shr)
        (high_mask_bits w k x i h))

pub and_comm : (a b : ℕ) → bit_and a b ≡ bit_and b a
and_comm a b = eq_of_bits _ _ (λ i. simp bit-and (ground arith))

bit-one : (j : ℕ) → bit 1 j ≡ j == 0
unfolding bit
bit-one zero = refl
bit-one (suc j) = rw bit-zero (ground arith)

pub bit-pow_two : (k i : ℕ) → bit (2 ^ k) i ≡ i == k
bit-pow_two k i =
    let same : 1 * 2 ^ k ≡ 2 ^ k = omega arith in
    rw same at (bit-mul 1 k i) ∙ rw bit-one (ground arith)

-- A mask of one bit.
pub and-pow_two : (k x : ℕ) → bit_and x (2 ^ k) ≡ (if bit x k then 2 ^ k else 0)
and-pow_two k x = eq_of_bits _ _ (λ i. rw (bit-and, bit-pow_two) (pick (bit x k) refl i))
  where
    pick : (b : Bool) → bit x k ≡ b → (i : ℕ) → bit x i && (i == k) ≡ bit (if b then 2 ^ k else 0) i
    pick true e i = rw bit-pow_two (one_bit e i)
      where
        one_bit : bit x k ≡ true → (i : ℕ) → bit x i && (i == k) ≡ i == k
        one_bit e i = ground (arith, ap (bit x) {x = i} {y = k})
    pick false e i = rw bit-zero (ground (arith, ap (bit x) {x = i} {y = k}))

field_bits :
    (k n x i : ℕ)
    → bit x i && (leb k i && ltb (i - k) n) ≡ leb k i && (ltb (i - k) n && bit x (k + (i - k)))
field_bits k n x i = elim (Bool-cases (leb k i)) [
  | inl up ↦ let here : k + (i - k) ≡ i = omega (arith, leb→le k i up) in rw here (ground arith)
  | inr low ↦ ground arith
]

-- A mask of the n bits from k on.
pub bit-field_mask : (k n i : ℕ) → bit ((2 ^ n - 1) * 2 ^ k) i ≡ leb k i && ltb (i - k) n
bit-field_mask k n i = rw (bit-mul, bit-low_mask)

pub and-field_mask : (k n x : ℕ) → bit_and x ((2 ^ n - 1) * 2 ^ k) ≡ x / 2 ^ k % 2 ^ n * 2 ^ k
and-field_mask k n x =
    eq_of_bits _ _
      (λ i. rw (bit-and, bit-field_mask, bit-mul, bit-mod, bit-shr) (field_bits k n x i))

pub and_assoc : (a b c : ℕ) → bit_and (bit_and a b) c ≡ bit_and a (bit_and b c)
and_assoc a b c = eq_of_bits _ _ (λ i. simp bit-and (ground arith))

-- Writing the field k of mask m into c: the field reads back, and the rest stays.
pub insert_field :
    (c m k : ℕ) → m < 2 ^ 64 → bit_and k m ≡ k → bit_and (bit_or (bit_and c (not64 m)) k) m ≡ k
insert_field c m k h fits = eq_of_bits _ _ (λ i.
    let part = ap (λ x. bit x i) fits in
    rw (bit-and, bit-or, bit-and, bit-not 64 m i h) (ground (arith, part, bit-and k m i)))

pub insert_field_rest :
    (c m k o : ℕ)
    → m < 2 ^ 64
    → bit_and k m ≡ k
    → c < 2 ^ 64
    → bit_and m o ≡ 0
    → bit_and (bit_or (bit_and c (not64 m)) k) o ≡ bit_and c o
insert_field_rest c m k o h fits small apart = eq_of_bits _ _ (λ i.
    let part = ap (λ x. bit x i) fits in
    let none = ap (λ x. bit x i) apart in
    rw (bit-and, bit-or, bit-and, bit-not 64 m i h, bit-and)
      (ground (arith, part, none, bit-and k m i, bit-and m o i, bit-zero i, bit-high c 64 i)))

-- Words with no common bit.
pub bits_apart : (a b i : ℕ) → bit_and a b ≡ 0 → bit a i && bit b i ≡ false
bits_apart a b i h = sym (bit-and a b i) ∙ ap (λ x. bit x i) h ∙ bit-zero i

-- ===== src/Word/Flags.antt =====
-- Tests `x & m` of a word against a mask, read bit by bit.
use native.Mathlib.Nat.{one-le-pow}
use type_ii_hypervisor_code.Common.{
  ℕ, zero, suc, ◌/◌, ◌%◌, ◌^◌, ◌≤◌, bit_and, ◌≡◌, ◌≢◌, ap, true, not, ◌&&◌, arith, inl, inr,
  Bool-cases, ◌↔◌, ◌==◌,
}
use type_ii_hypervisor_code.Word.{bit, has}
use type_ii_hypervisor_code.Word.Bits.{bit-zero, bit-and}
use type_ii_hypervisor_code.Word.Masks.{and-pow_two}

-- A test against one bit reads that bit.
pub has-pow_two : (x k : ℕ) → has x (2 ^ k) ≡ bit x k
unfolding has
has-pow_two x k = ground (arith, and-pow_two k x, one-le-pow k 2)

-- A number that is not 0 has a bit.
bit_of_pos_below : (n x : ℕ) → x ≤ n → x ≢ 0 → (i : ℕ) × (bit x i ≡ true)
unfolding bit
bit_of_pos_below zero x h p = absurd (p (omega arith))
bit_of_pos_below (suc n) x h p = elim (Bool-cases (x % 2 == 1)) [
  | inl odd ↦ (0, odd)
  | inr even ↦
      let (i, found) = bit_of_pos_below n (x / 2) (omega arith) (ground arith) in (suc i, found)
]

-- `x & m` is true exactly when some bit stands in both.
pub has_iff : (x m : ℕ) → (has x m ≡ true) ↔ ((i : ℕ) × (bit x i ≡ true) × (bit m i ≡ true))
unfolding has
has_iff x m = (forth, back)
  where
    forth : not (bit_and x m == 0) ≡ true → (i : ℕ) × (bit x i ≡ true) × (bit m i ≡ true)
    forth h =
        let (i, found) =
          bit_of_pos_below (bit_and x m) (bit_and x m) (omega arith) (ground arith) in
        (i, ground (arith, bit-and x m i), ground (arith, bit-and x m i))

    back : (i : ℕ) × (bit x i ≡ true) × (bit m i ≡ true) → not (bit_and x m == 0) ≡ true
    back (i, p, q) = elim (Bool-cases (bit_and x m == 0)) [
      | inl none ↦
          let empty : bit_and x m ≡ 0 = ground arith in
          cc (bit-and x m i, ap (λ y. bit y i) empty, bit-zero i, ap (λ b. b && bit m i) p, q)
      | inr some ↦ rw some
    ]

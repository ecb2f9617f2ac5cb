-- ===== src/Word/Fields.antt =====
-- Words put together from fields, as sums: `a << k | b` where b has k bits.
use native.Mathlib.Nat.{
  one-le-pow, mod-eq_of_lt, add-mul-mod_self_right, mul-add-div_right, add_comm, div-eq_of_lt,
}
use type_ii_hypervisor_code.Common.{
  ℕ, ◌+◌, ◌-◌, ◌*◌, ◌/◌, ◌%◌, ◌^◌, ◌<◌, bit_or, ◌≡◌, ◌∙◌, ◌&&◌, ◌||◌, ltb, leb, leb→le, arith,
  Bool-cases, inl, inr,
}
use type_ii_hypervisor_code.Word.{bit}
use type_ii_hypervisor_code.Word.Bits.{bit-or, bit-mul, bit-mod, bit-shr, bit-high, eq_of_bits}

or_add_bit :
    (k a b x i : ℕ)
    → b < 2 ^ k
    → x % 2 ^ k ≡ b
    → x / 2 ^ k ≡ a
    → (leb k i && bit a (i - k)) || bit b i ≡ bit x i
or_add_bit k a b x i h low up = elim (Bool-cases (leb k i)) [
  | inl l ↦
      let here : k + (i - k) ≡ i = omega (arith, leb→le k i l) in
      let high : bit a (i - k) ≡ bit x i = rw (← up, bit-shr, here) in
      ground (arith, high, bit-high b k i h)
  | inr l ↦
      let part : bit b i ≡ ltb i k && bit x i = rw (← low) (bit-mod x k i) in ground (arith, part)
]

pub or_add : (k a b : ℕ) → b < 2 ^ k → bit_or (a * 2 ^ k) b ≡ a * 2 ^ k + b
or_add k a b h =
    let p = 2 ^ k in
    let pos : 0 < p = one-le-pow k 2 (omega arith) in
    let low : (a * p + b) % p ≡ b =
      rw (add_comm (a * p) b) (add-mul-mod_self_right b a p ∙ mod-eq_of_lt h) in
    let up : (a * p + b) / p ≡ a = mul-add-div_right pos a b ∙ omega (arith, div-eq_of_lt h) in
    eq_of_bits _ _ (λ i. rw (bit-or, bit-mul) (or_add_bit k a b (a * p + b) i h low up))

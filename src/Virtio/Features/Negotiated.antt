-- ===== src/Virtio/Features/Negotiated.antt =====
-- Virtionet.cpp: the features that are settled between the guest and the back end.
use native.Mathlib.Nat.{pow-le-pow_right}
use type_ii_hypervisor_code.Common.{
  ℕ, ◌^◌, ◌<◌, ◌≤◌, ◌-◌, ◌*◌, ◌≡◌, ap, ◌∙◌, ◌==◌, ltb, arith, bit_and, bit_or, Bool, false, not,
  ◌&&◌, ◌||◌, if◌then◌else◌, List, [], ◌∷◌,
}
use type_ii_hypervisor_code.Word.{bit, not64}
use type_ii_hypervisor_code.Word.Bits.{bit-and, bit-or, bit-not, bit-mul, bit-high}
use type_ii_hypervisor_code.Word.Masks.{bit-pow_two, bit-low_mask}
use type_ii_hypervisor_code.Virtio.{VirtioDevice, set_guest_features}
use type_ii_hypervisor_code.Virtio.Features.{
  NetFeatures, with_features, without_features, net_features, net_guest_features,
}

pow_below : (f : ℕ) → f < 64 → 2 ^ f < 2 ^ 64
pow_below f h =
    let le : f ≤ 63 = omega arith in omega (arith, pow-le-pow_right {n = 2} (omega arith) le)

bit-not64 : (x i : ℕ) → x < 2 ^ 64 → bit (not64 x) i ≡ ltb i 64 && not (bit x i)
bit-not64 x i h = bit-not 64 x i h

abbrev pub among : ℕ → List ℕ → Bool
among i [] = false
among i (f ∷ fs) = i == f || among i fs

bit-with_features :
    (fs : List ℕ) (features i : ℕ)
    → bit (with_features fs features) i ≡ bit features i || among i fs
unfolding with_features
bit-with_features [] features i = ground arith
bit-with_features (f ∷ fs) features i =
    bit-with_features fs _ i ∙ rw (bit-or, bit-pow_two) (ground arith)

abbrev pub Below : List ℕ → Type 0
Below [] = Unit
Below (f ∷ fs) = (f < 31) × Below fs

bit-without_features :
    (fs : List ℕ) (features i : ℕ)
    → i < 64
    → Below fs
    → bit (without_features fs features) i ≡ bit features i && not (among i fs)
unfolding without_features
bit-without_features [] features i h below = ground arith
bit-without_features (f ∷ fs) features i h (le, below) =
    bit-without_features fs _ i h below
    ∙ rw (bit-and, bit-not64 (2 ^ f) i (pow_below f (omega arith)), bit-pow_two) (ground arith)

two_words :
    (old low high i : ℕ)
    → i < 64
    → low < 2 ^ 32
    → bit
        (bit_or
          (bit_and (bit_or (bit_and old (not64 0xffff_ffff)) low) 0xffff_ffff)
          (high * 2 ^ 32))
        i
      ≡ (if ltb i 32 then bit low i else bit high (i - 32))
two_words old low high i h small =
    rw
      (
        bit-or,
        bit-and _ 0xffff_ffff i,
        bit-or,
        bit-and old (not64 0xffff_ffff) i,
        bit-not64 0xffff_ffff i (omega arith),
        bit-low_mask 32 i,
        bit-mul high 32 i,
      )
      (ground (arith, bit-high low 32 i small))

module _ {Vring : Type 0} (swap : ℕ → ℕ) where
  set_guest_features-bits :
      (d : VirtioDevice Vring) (low high i : ℕ)
      → i < 64
      → swap low < 2 ^ 32
      → let lower = set_guest_features swap (record d { guest_features_sel = 0 }) low in
        let both = set_guest_features swap (record lower { guest_features_sel = 1 }) high in
        bit both.ack_guest_features i
        ≡ (if ltb i 32 then bit (swap low) i else bit (swap high) (i - 32))
  unfolding set_guest_features
  set_guest_features-bits d low high i h small =
      two_words d.ack_guest_features (swap low) (swap high) i h small

  -- When the guest has written both words of its features, the lower one first, the back end is
  -- given these features, whatever was acknowledged before, without those that the hypervisor takes
  -- care of itself; all of these are
  -- below 31.
  pub net_guest_features-bits :
      (f : NetFeatures) (d : VirtioDevice Vring) (low high i : ℕ)
      → Below (net_features f)
      → i < 64
      → swap low < 2 ^ 32
      → let lower = set_guest_features swap (record d { guest_features_sel = 0 }) low in
        let both = set_guest_features swap (record lower { guest_features_sel = 1 }) high in
        bit (net_guest_features f both.ack_guest_features) i
        ≡ (if ltb i 32 then bit (swap low) i else bit (swap high) (i - 32))
          && not (among i (net_features f))
  unfolding net_guest_features
  net_guest_features-bits f d low high i below h small =
      bit-without_features (net_features f) _ i h below
      ∙ ap (λ b. b && not (among i (net_features f))) (set_guest_features-bits d low high i h small)

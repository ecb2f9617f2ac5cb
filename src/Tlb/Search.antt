-- ===== src/Tlb/Search.antt =====
-- The search loops over the entries, `for(idx = 0; idx < 64; idx++) if(..) { ..; break; }`, and
-- what they find.
use native.Mathlib.Decide.{dec_lt}
use type_ii_hypervisor_code.Common.{
  ℕ, zero, suc, ◌+◌, ◌≤◌, ◌<◌, ◌≡◌, refl, Bool, true, false, Bool-cases, arith, if◌then◌else◌, inl,
  inr, Option, none, some,
}

-- The first index from `idx` on that passes the test, with `left` rounds to go; `none` when the
-- loop ends by its bound.
unfoldable pub first_from : (ℕ → Bool) → ℕ → ℕ → Option ℕ
first_from test zero idx = none
first_from test (suc left) idx = if test idx then some idx else first_from test left (idx + 1)

module _ (test : ℕ → Bool) where
  pub first_from-some :
      (left idx : ℕ) {i : ℕ}
      → first_from test left idx ≡ some i
      → (idx ≤ i)
        × (i < idx + left)
        × (test i ≡ true)
        × ((j : ℕ) → idx ≤ j → j < i → test j ≡ false)
  unfolding first_from
  first_from-some zero idx h = absurd (ground arith)
  first_from-some (suc left) idx h = elim (Bool-cases (test idx)) [
    | inl pass ↦
        let here : some idx ≡ some _ = rw pass at h in
        (ground arith, ground arith, cc, λ j p q. absurd (ground arith))
    | inr fail ↦
        let (lo, hi, pass, before) = first_from-some left (idx + 1) (rw fail at h) in
        (
          omega arith,
          omega arith,
          pass,
          λ j p q. elim (dec_lt idx j) [
            | yes above ↦ before j (omega arith) q
            | no same ↦ let e : j ≡ idx = omega arith in rw e fail
          ],
        )
  ]

  pub first_from-none :
      (left idx : ℕ)
      → first_from test left idx ≡ none
      → (j : ℕ) → idx ≤ j
      → j < idx + left
      → test j ≡ false
  unfolding first_from
  first_from-none zero idx h j lo hi = absurd (omega arith)
  first_from-none (suc left) idx h j lo hi = elim (Bool-cases (test idx)) [
    | inl pass ↦ absurd (ground arith)
    | inr fail ↦ elim (dec_lt idx j) [
      | yes above ↦ first_from-none left (idx + 1) (rw fail at h) j (omega arith) (omega arith)
      | no same ↦ let e : j ≡ idx = omega arith in rw e fail
    ]
  ]

  -- The converse: the first index that passes is found.
  pub first_from_first :
      (left idx i : ℕ)
      → idx ≤ i
      → i < idx + left
      → test i ≡ true
      → ((j : ℕ) → idx ≤ j → j < i → test j ≡ false)
      → first_from test left idx ≡ some i
  unfolding first_from
  first_from_first zero idx i lo hi pass before = absurd (omega arith)
  first_from_first (suc left) idx i lo hi pass before = elim (dec_lt idx i) [
    | yes above ↦ rw (before idx (omega arith) above) (
        first_from_first left (idx + 1) i (omega arith) (omega arith) pass
          (λ j p q. before j (omega arith) q))
    | no same ↦ let e : idx ≡ i = omega arith in rw (e, pass)
  ]

  pub first_from-all_fail :
      (left idx : ℕ)
      → ((j : ℕ) → idx ≤ j → j < idx + left → test j ≡ false)
      → first_from test left idx ≡ none
  unfolding first_from
  first_from-all_fail zero idx fail = refl
  first_from-all_fail (suc left) idx fail =
      rw (fail idx (omega arith) (omega arith))
        (first_from-all_fail left (idx + 1) (λ j p q. fail j (omega arith) (omega arith)))

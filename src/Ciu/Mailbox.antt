-- ===== src/Ciu/Mailbox.antt =====
-- `handleMboxSet` and `handleMboxClr`: the mailbox of a core and its two summary bits.
use type_ii_hypervisor_code.Common.{
  ℕ, ◌+◌, ◌*◌, ◌^◌, ◌<◌, ◌≤◌, bit_and, ◌≡◌, ◌⊎◌, refl, ◌∙◌, Bool, true, false, ◌&&◌, ◌||◌, arith,
  ◌==◌, if◌then◌else◌, not,
}
use type_ii_hypervisor_code.Word.{bit, not64}
use type_ii_hypervisor_code.Word.Bits.{
  bit-and, bit-not, bit-high, bit-zero, lt_of_bits, and-lt_left, eq_of_bits,
}
use type_ii_hypervisor_code.Ciu.Registers.{Memory, poke, int_sum0, int_sum4, mbox_set, mbox_clr}
use type_ii_hypervisor_code.Ciu.{
  put_bits, put_summary, handle_mbox_set, handle_mbox_clr, lower_half, upper_half, mbox0, mbox1,
}
use type_ii_hypervisor_code.Ciu.Lines.{bit-put_bits}

-- The word at `j` is one of the three summary words of the core.
abbrev pub IsSummary : ℕ → ℕ → Type 0
IsSummary core j = (j ≡ int_sum0 (core * 2)) ⊎ (j ≡ int_sum0 (core * 2 + 1)) ⊎ (j ≡ int_sum4 core)

put_summary-at :
    (on : Bool) (mem : Memory) (core flag j : ℕ)
    → core < 12
    → IsSummary core j
    → put_summary on mem core flag j ≡ put_bits on (mem j) flag
unfolding put_summary
put_summary-at on mem core flag j h s = ground arith

put_summary_bits :
    (on : Bool) (mem : Memory) (core k j i : ℕ)
    → core < 12
    → IsSummary core j
    → k < 64
    → mem j < 2 ^ 64
    → bit (put_summary on mem core (2 ^ k) j) i ≡ (if i == k then on else bit (mem j) i)
put_summary_bits on mem core k j i h s lt small =
    rw (put_summary-at on mem core (2 ^ k) j h s) (bit-put_bits on (mem j) k i lt small)

put_summary_else :
    (on : Bool) (mem : Memory) (core flag j : ℕ)
    → core < 12
    → 12 * 2 ≤ j
    → j < 384
    → put_summary on mem core flag j ≡ mem j
unfolding put_summary
put_summary_else on mem core flag j h lo hi = ground arith

-- For a core below 12 and 64-bit summary words: a write of `value` to the set register puts `value`
-- in both mailbox registers. In each of the three summary words it sets bit MBOX0 (32) if the lower
-- half of `value` is not 0, and bit MBOX1 (33) only if the lower half is 0 and the upper half is
-- not; the other bits stay.
handle_mbox_set_lem :
    (mem : Memory) (core value j i : ℕ)
    → core < 12
    → IsSummary core j
    → mem j < 2 ^ 64
    → (handle_mbox_set mem core value (mbox_set core) ≡ value)
      × (handle_mbox_set mem core value (mbox_clr core) ≡ value)
      × (bit (handle_mbox_set mem core value j) i ≡ (
          if i == 32
          then not (lower_half value == 0) || bit (mem j) i
          else if i == 33
          then ((lower_half value == 0) && not (upper_half value == 0)) || bit (mem j) i
          else bit (mem j) i))
unfolding handle_mbox_set
handle_mbox_set_lem mem core value j i h s small =
    let m = poke (poke mem (mbox_set core) value) (mbox_clr core) value in
    (
      kept (mbox_set core) (omega arith) (omega arith) (ground arith),
      kept (mbox_clr core) (omega arith) (omega arith) (ground arith),
      let same : m j ≡ mem j = ground arith in
          let same' : m (mbox_set core) ≡ value = ground arith in
          rw same' (
            ground (
              arith,
              put_summary_bits true m core 32 j i h s,
              put_summary_bits true m core 33 j i h s,
            )),
    )
  where
    kept :
        (j : ℕ)
        → 24 ≤ j
        → j < 384
        → poke (poke mem (mbox_set core) value) (mbox_clr core) value j ≡ value
        → handle_mbox_set mem core value j ≡ value
    kept j lo hi e =
        let m = poke (poke mem (mbox_set core) value) (mbox_clr core) value in
        ground (
          arith,
          put_summary_else true m core mbox0 j h lo hi,
          put_summary_else true m core mbox1 j h lo hi,
        )

-- The step of `handleMboxClr` for one half.
abbrev clear_half : Bool → Memory → ℕ → ℕ → Memory
clear_half empty mem core flag = if empty then put_summary false mem core flag else mem

clear_half_else :
    (empty : Bool) (mem : Memory) (core flag j : ℕ)
    → core < 12
    → 24 ≤ j
    → j < 384
    → clear_half empty mem core flag j ≡ mem j
clear_half_else true mem core flag j h lo hi = put_summary_else false mem core flag j h lo hi
clear_half_else false mem core flag j h lo hi = refl

clear_half_bits :
    (empty : Bool) (mem : Memory) (core k j i : ℕ)
    → core < 12
    → IsSummary core j
    → k < 64
    → mem j < 2 ^ 64
    → bit (clear_half empty mem core (2 ^ k) j) i
      ≡ (if i == k then not empty && bit (mem j) i else bit (mem j) i)
clear_half_bits true mem core k j i h s lt small =
    put_summary_bits false mem core k j i h s lt small
clear_half_bits false mem core k j i h s lt small = ground arith

clear_half-lt :
    (empty : Bool) (mem : Memory) (core flag j : ℕ)
    → core < 12
    → IsSummary core j
    → mem j < 2 ^ 64
    → clear_half empty mem core flag j < 2 ^ 64
clear_half-lt true mem core flag j h s small =
    rw (put_summary-at false mem core flag j h s) (and-lt_left 64 (mem j) (not64 flag) small)
clear_half-lt false mem core flag j h s small = small

-- A write of `value` to the clear register of a core takes the bits of `value` from the mailbox,
-- which both mailbox registers then show. In each of the three summary words bit MBOX0 (32) stays
-- only if the lower half of the mailbox is not 0 now, and bit MBOX1 (33) only if the upper half is
-- not; the other bits stay.
pub handle_mbox_clr_lem :
    (mem : Memory) (core value j i : ℕ)
    → core < 12
    → IsSummary core j
    → mem j < 2 ^ 64
    → let left = bit_and (mem (mbox_set core)) (not64 value) in
      (handle_mbox_clr mem core value (mbox_set core) ≡ left)
      × (handle_mbox_clr mem core value (mbox_clr core) ≡ left)
      × (bit (handle_mbox_clr mem core value j) i ≡ (
          if i == 32
          then not (lower_half left == 0) && bit (mem j) i
          else if i == 33
          then not (upper_half left == 0) && bit (mem j) i
          else bit (mem j) i))
unfolding handle_mbox_clr
handle_mbox_clr_lem mem core value j i h s small =
    let left = bit_and (mem (mbox_set core)) (not64 value) in
    let m₁ = poke mem (mbox_set core) left in
    let here : m₁ (mbox_set core) ≡ left = ground arith in
    let m₂ = clear_half (lower_half left == 0) m₁ core mbox0 in
    let m₃ = clear_half (upper_half left == 0) m₂ core mbox1 in
    let there : m₂ (mbox_set core) ≡ left =
      clear_half_else (lower_half left == 0) m₁ core mbox0 (mbox_set core) h (omega arith)
        (omega arith)
      ∙ here in
    let last : m₃ (mbox_set core) ≡ left =
      clear_half_else (upper_half left == 0) m₂ core mbox1 (mbox_set core) h (omega arith)
        (omega arith)
      ∙ there in
    rw (here, there, last)
      (
        ground (arith, last),
        ground arith,
        let e : m₁ j ≡ mem j = ground arith in
            let e' : poke m₃ (mbox_clr core) left j ≡ m₃ j = ground arith in
            let small₁ : m₁ j < 2 ^ 64 = rw e small in
            rw e' (
              clear_half_bits (upper_half left == 0) m₂ core 33 j i h s (omega arith)
                (clear_half-lt (lower_half left == 0) m₁ core mbox0 j h s small₁)
              ∙ rw
                  (
                    clear_half_bits (lower_half left == 0) m₁ core 32 j i h s (omega arith) small₁,
                    e,
                  )
                  (ground arith)),
      )

and_not_self : (x : ℕ) → x < 2 ^ 64 → bit_and x (not64 x) ≡ 0
and_not_self x h = eq_of_bits _ _ (λ i. rw (bit-and, bit-not 64 x i h, bit-zero) (ground arith))

-- For a core below 12 and 64-bit words: writing the same value to the set register and then to the
-- clear register of a core leaves its mailbox empty, and bits MBOX0 and MBOX1 of its three summary
-- words clear.
pub mailbox_emptied :
    (mem : Memory) (core value j : ℕ)
    → core < 12
    → IsSummary core j
    → mem j < 2 ^ 64
    → value < 2 ^ 64
    → let after = handle_mbox_clr (handle_mbox_set mem core value) core value in
      (after (mbox_set core) ≡ 0)
      × (after (mbox_clr core) ≡ 0)
      × (bit (after j) 32 ≡ false)
      × (bit (after j) 33 ≡ false)
mailbox_emptied mem core value j h s lt small =
    let mid = handle_mbox_set mem core value in
    let set = (handle_mbox_set_lem mem core value j 0 h s lt).0 in
    let lt' : mid j < 2 ^ 64 = lt_of_bits 64 (mid j) (λ i hi.
      (handle_mbox_set_lem mem core value j i h s lt).2
      ∙ ground (arith, bit-high (mem j) 64 i lt hi)) in
    let none : bit_and (mid (mbox_set core)) (not64 value) ≡ 0 =
      rw set (and_not_self value small) in
    let bits = λ (i : ℕ). handle_mbox_clr_lem mid core value j i h s lt' in
    ((bits 0).0 ∙ none, (bits 0).1 ∙ none, (bits 32).2 ∙ rw none, (bits 33).2 ∙ rw none)

-- ===== src/Ciu/Broadcast.antt =====
-- `generateInterrupt` and `clearInterrupt`: one line raised or dropped at every core.
use type_ii_hypervisor_code.Common.{
  ℕ, zero, suc, ◌+◌, ◌*◌, ◌^◌, ◌≤◌, ◌<◌, bit_and, bit_or, ◌≡◌, ◌≢◌, refl, ap, ◌∙◌, sym, Bool, true,
  false, ◌&&◌, arith, Bool-cases, inl, inr, ==_refl, ==-eq-false,
}
use native.Mathlib.Decide.{dec_lt}
use type_ii_hypervisor_code.Word.{bit, has, not64, shl}
use type_ii_hypervisor_code.Word.Bits.{bit-and, bit-or, bit-not}
use type_ii_hypervisor_code.Word.Masks.{bit-pow_two}
use type_ii_hypervisor_code.Word.Flags.{has_iff}
use type_ii_hypervisor_code.Cp0.{Regs, slot, is_interrupt_pending}
use type_ii_hypervisor_code.Cp0.Modes.{cause_of, status_of, is_interrupt_pending_iff, Enabled}
use type_ii_hypervisor_code.Ciu.Registers.{Memory, int_sum0, int_en0}
use type_ii_hypervisor_code.Ciu.{
  Ciu, put_bits, update_interrupt, put_summary, put_line, line_loop, generate_interrupt,
  clear_interrupt,
}
use type_ii_hypervisor_code.Ciu.Lines.{update_interrupt_lem, pow_lt}

-- The three words of a core, and what else stays.
put_summary-word :
    (on : Bool) (mem : Memory) (core flag : ℕ)
    → core < 12
    → put_summary on mem core flag (int_sum0 (core * 2))
      ≡ put_bits on (mem (int_sum0 (core * 2))) flag
unfolding put_summary
put_summary-word on mem core flag h = ground arith

put_summary_other :
    (on : Bool) (mem : Memory) (core flag j : ℕ)
    → j ≢ core * 2
    → j ≢ core * 2 + 1
    → j ≢ 384 + core
    → put_summary on mem core flag j ≡ mem j
unfolding put_summary
put_summary_other on mem core flag j a b d = ground arith

put_line-memory :
    (on : Bool) (flag : ℕ) (c : Ciu) (core : ℕ)
    → (put_line on flag c core).memory ≡ put_summary on c.memory core flag
unfolding put_line update_interrupt
put_line-memory on flag c core = refl

put_line_other :
    (on : Bool) (flag : ℕ) (c : Ciu) (core k : ℕ)
    → k ≢ core
    → (put_line on flag c core).cores k ≡ c.cores k
unfolding put_line update_interrupt
put_line_other on flag c core k away = rw (==-eq-false k core away)

-- The rounds behind a core leave it alone.
line_loop_past :
    (on : Bool) (flag left k : ℕ) (c : Ciu) (core : ℕ)
    → core < k
    → (line_loop on flag left k c).cores core ≡ c.cores core
unfolding line_loop
line_loop_past on flag zero k c core h = refl
line_loop_past on flag (suc left) k c core h =
    line_loop_past on flag left (k + 1) (put_line on flag c k) core (omega arith)
    ∙ put_line_other on flag c k core (omega arith)

-- What IP2 of a core is behind a broadcast.
abbrev pub ip2_after : Bool → ℕ → Ciu → ℕ → Bool
ip2_after on flag c core =
    has (put_bits on (c.memory (int_sum0 (core * 2))) flag) (c.memory (int_en0 (core * 2)))

put_line-ip2 :
    (on : Bool) (flag : ℕ) (c : Ciu) (core : ℕ)
    → core < 12
    → cause_of (c.cores core) < 2 ^ 64
    → (bit (cause_of ((put_line on flag c core).cores core)) 10 ≡ ip2_after on flag c core)
      × ((j : ℕ) → j ≢ slot 13 0 → (put_line on flag c core).cores core j ≡ c.cores core j)
unfolding put_line
put_line-ip2 on flag c core bound h =
    let c' : Ciu = record c { memory = put_summary on c.memory core flag } in
    (
      (update_interrupt_lem c' core 10 0 (suc core) h (omega arith) (omega arith)).0
          ∙ rw (
            put_summary-word on c.memory core flag bound,
            put_summary_other on c.memory core flag (int_en0 (core * 2)) (omega arith) (omega arith)
                (omega arith),
          ),
      λ j away. (update_interrupt_lem c' core 0 j (suc core) h away (omega arith)).1,
    )

line_loop-ip2 :
    (on : Bool) (flag left k : ℕ) (c : Ciu) (core : ℕ)
    → k ≤ core
    → core < k + left
    → core < 12
    → cause_of (c.cores core) < 2 ^ 64
    → let after = (line_loop on flag left k c).cores core in
      (bit (cause_of after) 10 ≡ ip2_after on flag c core)
      × ((j : ℕ) → j ≢ slot 13 0 → after j ≡ c.cores core j)
unfolding line_loop
line_loop-ip2 on flag zero k c core lo hi bound h = absurd (omega arith)
line_loop-ip2 on flag (suc left) k c core lo hi bound h = elim (dec_lt k core) [
  | no here ↦
      let same : k ≡ core = omega arith in
      rw (same, line_loop_past on flag left (core + 1) (put_line on flag c core) core (omega arith))
        (put_line-ip2 on flag c core bound h)
  | yes before ↦
      let kept = put_line_other on flag c k core (omega arith) in
      let (ip2, rest) =
        line_loop-ip2 on flag left (k + 1) (put_line on flag c k) core (omega arith) (omega arith)
          bound (rw kept h) in
      (
        ip2
            ∙ rw (
              put_line-memory,
              put_summary_other on c.memory k flag (int_sum0 (core * 2)) (omega arith) (omega arith)
                  (omega arith),
              put_summary_other on c.memory k flag (int_en0 (core * 2)) (omega arith) (omega arith)
                  (omega arith),
            ),
        λ j away. rest j away ∙ ap (λ (r : Regs). r j) kept,
      )
]

shl_one : (line : ℕ) → line < 64 → shl 1 line ≡ 2 ^ line
shl_one line h =
    let small = pow_lt line h in
    let same : 1 * 2 ^ line ≡ 2 ^ line = omega arith in rw same (omega (arith, small))

-- With at most 12 cores, a line below 64 and a 64-bit Cause: when the bit of `line` stands in the
-- first enable word of a core in use and the core takes interrupts on line IP2 (bit 10 of Status,
-- IE set, EXL and ERL clear), then after `generateInterrupt(line)` the core has an interrupt
-- pending.
pub generate_interrupt-pending :
    (c : Ciu) (core line : ℕ)
    → core < c.num_cores
    → c.num_cores ≤ 12
    → line < 64
    → cause_of (c.cores core) < 2 ^ 64
    → bit (c.memory (int_en0 (core * 2))) line ≡ true
    → bit (status_of (c.cores core)) 10 ≡ true
    → Enabled (status_of (c.cores core))
    → is_interrupt_pending ((generate_interrupt c line).cores core) ≡ true
unfolding generate_interrupt
generate_interrupt-pending c core line used cores lt small enabled unmasked takes =
    let (ip2, rest) =
      line_loop-ip2 true (shl 1 line) c.num_cores 0 c core (omega arith) (omega arith) (omega arith)
        small in
    let status = rest (slot 12 0) (omega arith) in
    let sum = c.memory (int_sum0 (core * 2)) in
    let raised =
      ip2
      ∙ (has_iff (bit_or sum (shl 1 line)) (c.memory (int_en0 (core * 2)))).1
          (line, rw (shl_one line lt, bit-or, bit-pow_two, ==_refl) (ground arith), enabled) in
    (is_interrupt_pending_iff _).1 (2, omega arith, raised, rw status unmasked, rw status takes)

-- With at most 12 cores, a line below 64 and a 64-bit Cause: when no other line stands both in the
-- first summary word and in the first enable word of a core in use, then after
-- `clearInterrupt(line)` bit IP2 of the core's Cause is clear; no other register of the core has
-- changed.
pub clear_interrupt-quiet :
    (c : Ciu) (core line j : ℕ)
    → core < c.num_cores
    → c.num_cores ≤ 12
    → line < 64
    → cause_of (c.cores core) < 2 ^ 64
    → ((i : ℕ)
        → i ≢ line
        → bit (c.memory (int_sum0 (core * 2))) i && bit (c.memory (int_en0 (core * 2))) i ≡ false)
    → j ≢ slot 13 0
    → (bit (cause_of ((clear_interrupt c line).cores core)) 10 ≡ false)
      × ((clear_interrupt c line).cores core j ≡ c.cores core j)
unfolding clear_interrupt
clear_interrupt-quiet c core line j used cores lt small alone away =
    let (ip2, rest) =
      line_loop-ip2 false (shl 1 line) c.num_cores 0 c core (omega arith) (omega arith)
        (omega arith) small in
    let sum = c.memory (int_sum0 (core * 2)) in
    let en = c.memory (int_en0 (core * 2)) in
    let none : has (bit_and sum (not64 (shl 1 line))) en ≡ false =
      elim (Bool-cases (has (bit_and sum (not64 (shl 1 line))) en)) [
        | inr off ↦ off
        | inl on ↦
            let (i, p, q) = (has_iff (bit_and sum (not64 (shl 1 line))) en).0 on in
            absurd (left i (rw (shl_one line lt) at p) q)
      ] in
    (ip2 ∙ none, rest j away)
  where
    left :
        (i : ℕ)
        → bit (bit_and (c.memory (int_sum0 (core * 2))) (not64 (2 ^ line))) i ≡ true
        → bit (c.memory (int_en0 (core * 2))) i ≡ true
        → ⊥
    left i p q =
        let p' =
          sym (
            rw (bit-not 64 (2 ^ line) i (pow_lt line lt), bit-pow_two) at
              (bit-and (c.memory (int_sum0 (core * 2))) (not64 (2 ^ line)) i))
          ∙ p in
        ground (arith, p', q, alone i)

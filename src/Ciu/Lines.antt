-- ===== src/Ciu/Lines.antt =====
-- From the summary and enable words to the Cause register of each core.
use native.Mathlib.Nat.{pow-le-pow_right}
use type_ii_hypervisor_code.Common.{
  ℕ, ◌+◌, ◌*◌, ◌^◌, ◌≤◌, ◌<◌, bit_and, ◌≡◌, ◌≢◌, refl, Bool, true, false, ◌&&◌, arith, ◌==◌,
  if◌then◌else◌, leb, ==_refl, ==-eq-false,
}
use type_ii_hypervisor_code.Word.{bit, has, not64}
use type_ii_hypervisor_code.Word.Bits.{bit-and, bit-or, bit-not, bit-high, or-lt, and-lt_left}
use type_ii_hypervisor_code.Word.Masks.{bit-pow_two}
use type_ii_hypervisor_code.Cp0.{slot, low_half, read, write, reserved_bits}
use type_ii_hypervisor_code.Cp0.Access.{low_half-mask}
use type_ii_hypervisor_code.Cp0.Modes.{cause_of}
use type_ii_hypervisor_code.Ciu.Registers.{Memory, int_sum0, int_en0, int_sum4, int_en4_0}
use type_ii_hypervisor_code.Ciu.{Ciu, put_bits, update_interrupt}

pub pow_lt : (k : ℕ) → k < 64 → 2 ^ k < 2 ^ 64
pow_lt k h =
    let le : 2 ^ k ≤ 2 ^ 63 = pow-le-pow_right {n = 2} (omega arith) {j = 63} (omega arith) in
    omega (arith, le)

pub bit-put_bits :
    (on : Bool) (v k i : ℕ)
    → k < 64
    → v < 2 ^ 64
    → bit (put_bits on v (2 ^ k)) i ≡ (if i == k then on else bit v i)
bit-put_bits true v k i h small = rw (bit-or, bit-pow_two) (ground arith)
bit-put_bits false v k i h small =
    rw (bit-and, bit-not 64 (2 ^ k) i (pow_lt k h), bit-pow_two)
      (ground (arith, bit-high v 64 i small))

pub put_bits-lt : (on : Bool) (v k : ℕ) → k < 64 → v < 2 ^ 64 → put_bits on v (2 ^ k) < 2 ^ 64
put_bits-lt true v k h small = or-lt 64 v (2 ^ k) small (pow_lt k h)
put_bits-lt false v k h small = and-lt_left 64 v (not64 (2 ^ k)) small

-- The conditions of `updateInterrupt` for the lines IP2, IP3 and IP4.
abbrev pub line_raised : Memory → ℕ → ℕ → Bool
line_raised mem core i =
    if i == 10
    then has (mem (int_sum0 (core * 2))) (mem (int_en0 (core * 2)))
    else if i == 11
    then has (mem (int_sum0 (core * 2 + 1))) (mem (int_en0 (core * 2 + 1)))
    else has (mem (int_sum4 core)) (mem (int_en4_0 core))

cause_bits :
    (a b d : Bool) (cause i : ℕ)
    → cause < 2 ^ 64
    → bit (put_bits d (put_bits b (put_bits a cause 0x400) 0x800) 0x1000) i
      ≡ (if i == 12 then d else if i == 11 then b else if i == 10 then a else bit cause i)
cause_bits a b d cause i h =
    let h₁ = put_bits-lt a cause 10 (omega arith) h in
    let h₂ = put_bits-lt b (put_bits a cause 0x400) 11 (omega arith) h₁ in
    rw (
      bit-put_bits d (put_bits b (put_bits a cause 0x400) 0x800) 12 i (omega arith) h₂,
      bit-put_bits b (put_bits a cause 0x400) 11 i (omega arith) h₁,
      bit-put_bits a cause 10 i (omega arith) h,
    )

line_mask_bits :
    (bit 0xfcc0_ff7c 10 ≡ true) × (bit 0xfcc0_ff7c 11 ≡ true) × (bit 0xfcc0_ff7c 12 ≡ true)
unfolding bit
line_mask_bits = (refl, refl, refl)

cause-narrow : (x : ℕ) → low_half (bit_and x 0xfcc0_ff7c) ≡ bit_and x 0xfcc0_ff7c
cause-narrow x = low_half-mask x 0xfcc0_ff7c (omega arith)

-- Of a 64-bit Cause: after `updateInterrupt(core)` bits 10, 11 and 12 of the core's Cause say
-- whether a bit stands in the summary word and in the enable word of each of its three lines; its
-- other Cause bits are as before, but for the reserved ones; its other registers and the other
-- cores are as before.
pub update_interrupt_lem :
    (c : Ciu) (core i j k : ℕ)
    → cause_of (c.cores core) < 2 ^ 64
    → j ≢ slot 13 0
    → k ≢ core
    → let after = (update_interrupt c core).cores in
      (bit (cause_of (after core)) i ≡ (
        if leb 10 i && leb i 12
        then line_raised c.memory core i
        else bit (cause_of (c.cores core)) i && bit 0xfcc0_ff7c i))
      × (after core j ≡ c.cores core j)
      × (after k ≡ c.cores k)
unfolding update_interrupt read write reserved_bits
update_interrupt_lem c core i j k h away away' = (
  rw (==_refl, cause-narrow, bit-and, cause_bits _ _ _ (cause_of (c.cores core)) i h)
      (ground (arith, line_mask_bits)),
  rw ==_refl (ground arith),
  rw (==-eq-false k core away'),
)

-- ===== src/Ciu/Enables.antt =====
-- The enable registers, their write-one-to-set and write-one-to-clear companions, and `sendNMI`.
use type_ii_hypervisor_code.Common.{
  ℕ, zero, suc, ◌+◌, ◌-◌, ◌*◌, ◌/◌, ◌%◌, ◌^◌, ◌<◌, bit_and, bit_or, ◌≡◌, ◌≢◌, ◌⊎◌, refl, ◌∙◌, Bool,
  true, false, ◌&&◌, ◌||◌, arith, ◌==◌, if◌then◌else◌, not, ltb, leb, Bool-cases, inl, inr,
}
use type_ii_hypervisor_code.Word.{bit, not64, shr}
use type_ii_hypervisor_code.Word.Bits.{bit-and, bit-or, bit-not, bit-mod, bit-shr}
use type_ii_hypervisor_code.Word.Masks.{and-low_mask}
use type_ii_hypervisor_code.Ciu.Registers.{Memory, int_en0, en0_w1c, en0_w1s, nmi}
use type_ii_hypervisor_code.Ciu.{
  Ciu, handle_enable0, handle_enable0_w1c, handle_enable0_w1s, nmi_loop, send_nmi,
}

merged_bits :
    (a b d k : ℕ)
    → d < 2 ^ 64
    → k < 64
    → bit (bit_and (bit_or a b) (not64 d)) k ≡ (bit a k || bit b k) && not (bit d k)
merged_bits a b d k h lt = rw (bit-and, bit-or, bit-not 64 d k h) (ground arith)

-- After a write of `a` to enable register EN0 number r < 24 of the table, of `b` to its W1S and of
-- `d` to its W1C register, bit k of the enable word is that of `a` or of `b`, unless it is one of
-- `d`. But for the three registers the memory is as before.
pub enable0_merged :
    (mem : Memory) (r a b d k j : ℕ)
    → r < 24
    → k < 64
    → j ≢ int_en0 r
    → j ≢ en0_w1s r
    → j ≢ en0_w1c r
    → d < 2 ^ 64
    → let after =
        handle_enable0_w1c
          (handle_enable0_w1s (handle_enable0 mem (r * 2) a) (r * 2) b)
          (r * 2)
          d in
      (bit (after (int_en0 r)) k ≡ (bit a k || bit b k) && not (bit d k)) × (after j ≡ mem j)
unfolding handle_enable0 handle_enable0_w1s handle_enable0_w1c
enable0_merged mem r a b d k j lt low n₁ n₂ n₃ h =
    let even : r * 2 % 2 ≡ 0 = omega arith in
    let half : r * 2 / 2 ≡ r = omega arith in
    rw (even, half) (ground (arith, merged_bits a b d k h low), ground arith)

nmi_loop_lem :
    (left mask i cores : ℕ) (pulses : ℕ → Bool) (k : ℕ)
    → nmi_loop left mask i cores pulses k
      ≡ pulses k || (leb i k && ltb k (i + left) && bit mask (k - i) && ltb k cores)
unfolding nmi_loop bit
nmi_loop_lem zero mask i cores pulses k = ground arith
nmi_loop_lem (suc left) mask i cores pulses k =
    nmi_loop_lem left (shr mask 1) (i + 1) cores _ k
    ∙ rw (bit-shr mask 1) (step (Bool-cases (k == i)))
  where
    step :
        ((k == i) ≡ true) ⊎ ((k == i) ≡ false)
        → (if mask % 2 == 1 && ltb i cores
                then (λ k. if k == i then true else pulses k)
                else pulses)
              k
            || (leb (i + 1) k
                && ltb k (i + 1 + left)
                && bit mask (1 + (k - (i + 1)))
                && ltb k cores)
          ≡ pulses k || (leb i k && ltb k (i + suc left) && bit mask (k - i) && ltb k cores)
    step (inl e) =
        let here : k ≡ i = ground arith in
        let start : i - i ≡ 0 = omega arith in rw (here, start) (ground arith)
    step (inr ne) = elim (Bool-cases (leb (i + 1) k)) [
      | inl above ↦ let next : 1 + (k - (i + 1)) ≡ k - i = ground arith in rw next (ground arith)
      | inr below ↦ ground arith
    ]

low_bits : (value : ℕ) → bit_and value 0xfff ≡ value % 2 ^ 12
low_bits value = and-low_mask 12 value

-- A write of `value` to the NMI register pulses the NMI line of exactly the cores k < 12 in use
-- whose bit is set, beside the lines that were pulsed before, and resets the register.
pub send_nmi_lem :
    (c : Ciu) (value k : ℕ)
    → ((send_nmi c value).nmi_pulse k
        ≡ c.nmi_pulse k || (ltb k 12 && bit value k && ltb k c.num_cores))
      × ((send_nmi c value).memory nmi ≡ 0)
unfolding send_nmi
send_nmi_lem c value k = (
  nmi_loop_lem 12 (bit_and value 0xfff) 0 c.num_cores c.nmi_pulse k
      ∙ rw (low_bits value, bit-mod) (ground arith),
  refl,
)

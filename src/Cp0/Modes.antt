-- ===== src/Cp0/Modes.antt =====
-- Operating mode, pending interrupts and the counter.
use type_ii_hypervisor_code.Common.{
  ℕ, zero, suc, ◌+◌, ◌-◌, ◌/◌, ◌%◌, ◌^◌, ◌<◌, bit_and, ◌≡◌, ◌≢◌, ◌↔◌, refl, ap, ◌∙◌, true, false,
  ◌||◌, arith, ◌==◌, if◌then◌else◌, ltb,
}
use type_ii_hypervisor_code.Word.{bit, has, u32}
use type_ii_hypervisor_code.Word.Bits.{bit-and, bit-mod}
use type_ii_hypervisor_code.Word.Masks.{and-low_mask, and-field_mask, bit-field_mask}
use type_ii_hypervisor_code.Word.Flags.{has-pow_two, has_iff}
use type_ii_hypervisor_code.Cp0.{
  Regs, slot, set_slot, read, get_ksu, is_interrupt_pending, inc_and_get_count,
}

abbrev pub status_of : Regs → ℕ
status_of regs = regs (slot 12 0)

abbrev pub cause_of : Regs → ℕ
cause_of regs = regs (slot 13 0)

-- The two exception bits as one test.
pub has_six : (x : ℕ) → has x 6 ≡ bit x 1 || bit x 2
unfolding has bit
has_six x = ground (arith, and-field_mask 1 2 x)

ksu_field : (x : ℕ) → bit_and x 0x18 / 8 ≡ x / 8 % 4
ksu_field x = omega (arith, and-field_mask 3 2 x)

-- The mode is the KSU field of Status, but kernel mode whenever EXL or ERL is set.
pub get_ksu_lem :
    (regs : Regs)
    → get_ksu regs
      ≡ (if bit (status_of regs) 1 || bit (status_of regs) 2 then 0 else status_of regs / 8 % 4)
unfolding get_ksu
get_ksu_lem regs =
    let s = status_of regs in
    rw (ksu_field (u32 s), has_six (u32 s), bit-mod s 32 1, bit-mod s 32 2) (ground arith)

-- IE set, EXL and ERL clear.
abbrev pub Enabled : ℕ → Type 0
Enabled s = (bit s 0 ≡ true) × (bit s 1 ≡ false) × (bit s 2 ≡ false)

Enabled-iff : (s : ℕ) → ((bit_and s 7 == 1) ≡ true) ↔ Enabled s
unfolding bit
Enabled-iff s = (ground (arith, and-low_mask 3 s), ground (arith, and-low_mask 3 s))

abbrev Raised : ℕ → ℕ → Type 0
Raised c s = (n : ℕ) × (n < 8) × (bit c (8 + n) ≡ true) × (bit s (8 + n) ≡ true)

Raised-iff : (c s : ℕ) → (ltb 0 (bit_and c (bit_and s 0xff00)) ≡ true) ↔ Raised c s
unfolding has
Raised-iff c s = (forth, back)
  where
    forth : ltb 0 (bit_and c (bit_and s 0xff00)) ≡ true → Raised c s
    forth h =
        let (i, p, q) = (has_iff c (bit_and s 0xff00)).0 (ground arith) in
        let here : 8 + (i - 8) ≡ i = ground (arith, bit-and s 0xff00 i, bit-field_mask 8 8 i) in
        (
          i - 8,
          ground (arith, bit-and s 0xff00 i, bit-field_mask 8 8 i),
          rw here p,
          rw here (ground (arith, bit-and s 0xff00 i)),
        )

    back : Raised c s → ltb 0 (bit_and c (bit_and s 0xff00)) ≡ true
    back (n, lt, p, q) =
        let found =
          (has_iff c (bit_and s 0xff00)).1
            (8 + n, p, ground (arith, bit-and s 0xff00 (8 + n), bit-field_mask 8 8 (8 + n))) in
        ground arith

-- An interrupt is pending exactly when interrupts are enabled, no exception or error level is
-- set, and some line 8 + n with n < 8 is raised in Cause and unmasked in Status.
pub is_interrupt_pending_iff :
    (regs : Regs)
    → (is_interrupt_pending regs ≡ true) ↔ (
        (n : ℕ) × (n < 8)
        × (bit (cause_of regs) (8 + n) ≡ true)
        × (bit (status_of regs) (8 + n) ≡ true)
        × Enabled (status_of regs))
unfolding is_interrupt_pending
is_interrupt_pending_iff regs =
    let c = cause_of regs in
    let s = status_of regs in
    (
      λ h.
          let (n, lt, p, q) = (Raised-iff c s).0 (ground arith) in
          (n, lt, p, q, (Enabled-iff s).0 (ground arith)),
      λ r. ground (arith, (Raised-iff c s).1 (r.0, r.1, r.2, r.3), (Enabled-iff s).1 r.4),
    )

-- `n` calls of the counter.
pub ticks : ℕ → Regs → Regs
ticks zero regs = regs
ticks (suc n) regs = ticks n (inc_and_get_count regs).0

counted : Regs → Regs
counted regs = set_slot regs (slot 9 0) ((read regs 9 0 + 1) % 2 ^ 32)

tick-running :
    (regs : Regs)
    → bit (cause_of regs) 27 ≡ false
    → (inc_and_get_count regs ≡ (counted regs, (read regs 9 0 + 1) % 2 ^ 32))
unfolding inc_and_get_count counted read
tick-running regs on =
    let next : bit_and ((regs 72 + 1) % 2 ^ 64) 0xffff_ffff ≡ (regs 72 + 1) % 2 ^ 32 =
      omega (arith, and-low_mask 32 ((regs 72 + 1) % 2 ^ 64)) in
    rw (has-pow_two (regs 104) 27, on, next)

tick-stopped :
    (regs : Regs) → bit (cause_of regs) 27 ≡ true → inc_and_get_count regs ≡ (regs, read regs 9 0)
unfolding inc_and_get_count read
tick-stopped regs off = rw (has-pow_two (regs 104) 27, off)

-- With bit 27 of Cause clear and a Count below 2 ^ 32, n increments add n to Count modulo 2 ^ 32
-- and change no other register.
pub ticks-count :
    (n : ℕ) (regs : Regs) (i : ℕ)
    → read regs 9 0 < 2 ^ 32
    → i ≢ slot 9 0
    → bit (cause_of regs) 27 ≡ false
    → (read (ticks n regs) 9 0 ≡ (read regs 9 0 + n) % 2 ^ 32) × (ticks n regs i ≡ regs i)
unfolding ticks read counted set_slot
ticks-count zero regs i h away on = (omega arith, refl)
ticks-count (suc n) regs i h away on =
    let step : (inc_and_get_count regs).0 ≡ counted regs = ap (λ r. r.0) (tick-running regs on) in
    let (total, rest) = ticks-count n (counted regs) i (omega arith) away on in
    rw step (omega (arith, total), rest ∙ ground arith)

-- With the bit set they change nothing.
pub ticks_stopped : (n : ℕ) (regs : Regs) → bit (cause_of regs) 27 ≡ true → ticks n regs ≡ regs
unfolding ticks
ticks_stopped zero regs off = refl
ticks_stopped (suc n) regs off = rw (tick-stopped regs off) (ticks_stopped n regs off)

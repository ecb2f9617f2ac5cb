-- ===== src/Uart/Interrupts.antt =====
-- `uart_update_irq`: what the port identifies, and what the cores see.
use type_ii_hypervisor_code.Common.{
  ℕ, ◌*◌, ◌^◌, ◌<◌, ◌≤◌, bit_and, bit_or, ◌≡◌, ◌≢◌, true, false, arith, ◌==◌, Bool-cases, inl, inr,
  ==_iff, ◌∷◌,
}
use type_ii_hypervisor_code.Word.{bit, not64, u8}
use type_ii_hypervisor_code.Word.Flags.{has-pow_two}
use type_ii_hypervisor_code.Cp0.{is_interrupt_pending}
use type_ii_hypervisor_code.Cp0.Modes.{cause_of, status_of, Enabled}
use type_ii_hypervisor_code.Ciu.Registers.{int_en0}
use type_ii_hypervisor_code.Ciu.{Ciu}
use type_ii_hypervisor_code.Ciu.Broadcast.{generate_interrupt-pending}
use type_ii_hypervisor_code.Uart.{
  Uart, pending_id, iir_no_int, lsr_thre, lsr_temt, uart_update_irq, write_thr, uart_io_write,
  register_of,
}

-- A core that takes the port's interrupt: it is in use, the line is enabled for its IP2, and the
-- core takes interrupts on IP2.
pub record Listens (c : Ciu) (core : ℕ) : Type 0 where
  pub used : core < c.num_cores
  pub cores : c.num_cores ≤ 12
  pub cause : cause_of (c.cores core) < 2 ^ 64
  pub line : bit (c.memory (int_en0 (core * 2))) 35 ≡ true
  pub unmasked : bit (status_of (c.cores core)) 10 ≡ true
  pub enabled : Enabled (status_of (c.cores core))

pub uart_update_irq-raises :
    (u : Uart) (core : ℕ)
    → Listens u.ciu core
    → pending_id u ≢ iir_no_int
    → is_interrupt_pending ((uart_update_irq u).ciu.cores core) ≡ true
unfolding uart_update_irq
uart_update_irq-raises u core l some_id = elim (Bool-cases (pending_id u == iir_no_int)) [
  | inl no_id ↦ absurd (some_id ((==_iff (pending_id u) iir_no_int).0 no_id))
  | inr busy ↦ rw busy (
      generate_interrupt-pending u.ciu core 35 l.used l.cores (omega arith) l.cause l.line
        l.unmasked l.enabled)
]

pub uart_update_irq-output : (u : Uart) → (uart_update_irq u).output ≡ u.output
unfolding uart_update_irq
uart_update_irq-output u = elim (Bool-cases (pending_id u == iir_no_int)) [
  | inl no_id ↦ rw no_id
  | inr busy ↦ rw busy
]

-- The port after the write, before its interrupt.
abbrev sent : Uart → ℕ → Uart
sent u value = record u {
  thr = value;
  lsr = bit_or (bit_and u.lsr (not64 lsr_thre)) (bit_or lsr_thre lsr_temt);
  output = u8 value ∷ u.output;
  thr_ipending = true;
}

sent-pending : (u : Uart) (value : ℕ) → bit u.ier 1 ≡ true → pending_id (sent u value) ≢ iir_no_int
unfolding pending_id
sent-pending u value enabled = ground (arith, has-pow_two u.ier 1)

write_thr-eq :
    (u : Uart) (addr value : ℕ)
    → register_of addr ≡ 0
    → bit u.lcr 7 ≡ false
    → uart_io_write u addr value ≡ uart_update_irq (sent u value)
unfolding uart_io_write write_thr
write_thr-eq u addr value here closed = rw (here, has-pow_two u.lcr 7, closed)

-- A byte written to the transmit register, with the divisor latch closed (bit 7 of LCR clear), goes
-- to the console, and if the transmit interrupt is enabled (bit 1 of IER) every core that listens
-- to the port has an interrupt pending.
pub uart_io_write-transmits :
    (u : Uart) (addr value core : ℕ)
    → register_of addr ≡ 0
    → bit u.lcr 7 ≡ false
    → bit u.ier 1 ≡ true
    → Listens u.ciu core
    → let after = uart_io_write u addr value in
      (after.output ≡ u8 value ∷ u.output) × (is_interrupt_pending (after.ciu.cores core) ≡ true)
uart_io_write-transmits u addr value core here closed enabled l =
    rw (write_thr-eq u addr value here closed) (
      uart_update_irq-output (sent u value),
      uart_update_irq-raises (sent u value) core l (sent-pending u value enabled),
    )

-- ===== src/Uart/Keys.antt =====
-- From the keys that are typed to what the guest reads.
use type_ii_hypervisor_code.Common.{
  ℕ, bit_and, bit_or, ◌≡◌, ◌≢◌, refl, ap, ◌∙◌, Bool, true, false, ◌||◌, arith, ◌==◌, if◌then◌else◌,
  not, Bool-cases, inl, inr, ==-eq-false,
}
use type_ii_hypervisor_code.Word.{bit, not64, sub64}
use type_ii_hypervisor_code.Word.Bits.{bit-or, bit-and}
use type_ii_hypervisor_code.Word.Flags.{has-pow_two}
use type_ii_hypervisor_code.Cp0.{is_interrupt_pending}
use type_ii_hypervisor_code.Ciu.Registers.{Memory, poke}
use type_ii_hypervisor_code.Uart.{
  Uart, pending_id, iir_no_int, lsr_dr, uart_update_irq, read_rbr, uart_io_read, uart_receive,
  read_keys, register_of,
}
use type_ii_hypervisor_code.Uart.Interrupts.{Listens, uart_update_irq-raises}

-- What an update of the interrupt leaves alone.
record Kept (u u' : Uart) : Type 0 where
  buffer : u'.buffer ≡ u.buffer
  index : u'.index ≡ u.index
  lcr : u'.lcr ≡ u.lcr
  lsr : u'.lsr ≡ u.lsr
  shown : u'.reg_hva 0 ≡ u.reg_hva 0

uart_update_irq-Kept : (u : Uart) → Kept u (uart_update_irq u)
unfolding uart_update_irq
uart_update_irq-Kept u = elim (Bool-cases (pending_id u == iir_no_int)) [
  | inl no_id ↦
      rw no_id (record { buffer = refl; index = refl; lcr = refl; lsr = refl; shown = refl })
  | inr busy ↦
      rw busy (record { buffer = refl; index = refl; lcr = refl; lsr = refl; shown = refl })
]

-- A read of the receive register with the divisor latch closed.
record ReadsKey (u u' : Uart) : Type 0 where
  buffer : u'.buffer ≡ u.buffer
  index : u'.index ≡ sub64 u.index 1
  lcr : u'.lcr ≡ u.lcr
  shown : u'.reg_hva 0 ≡ u.buffer (sub64 3 u.index)
  ready :
      bit u'.lsr 0
      ≡ (if (sub64 u.index 1 == 0) || not (u.buffer 0 == 0x1b) then false else bit u.lsr 0)

data_taken : (lsr : ℕ) → bit (bit_and lsr (not64 1)) 0 ≡ false
unfolding bit
data_taken lsr = ground (arith, bit-and lsr (not64 1) 0)

data_ready : (lsr : ℕ) → bit (bit_or lsr 1) 0 ≡ true
unfolding bit
data_ready lsr = ground (arith, bit-or lsr 1 0)

-- The port after the read, before its interrupt.
abbrev taken : Uart → Bool → Uart
taken u last =
    let u₁ : Uart = record u {
      reg_hva = poke u.reg_hva 0 (u.buffer (sub64 3 u.index));
      index = sub64 u.index 1;
    } in
    if last
    then (let lsr = bit_and u₁.lsr (not64 lsr_dr) in
        record u₁ { lsr = lsr; reg_hva = poke u₁.reg_hva 5 lsr })
    else u₁

abbrev last_key : Uart → Bool
last_key u = (sub64 u.index 1 == 0) || not (u.buffer 0 == 0x1b)

uart_io_read-eq :
    (u : Uart) (addr : ℕ)
    → register_of addr ≡ 0
    → bit u.lcr 7 ≡ false
    → uart_io_read u addr ≡ uart_update_irq (taken u (last_key u))
unfolding uart_io_read read_rbr
uart_io_read-eq u addr here closed = rw (here, has-pow_two u.lcr 7, closed)

taken-ReadsKey : (u : Uart) (last : Bool) → last_key u ≡ last → ReadsKey u (taken u last)
taken-ReadsKey u true e = record {
  buffer = refl;
  index = refl;
  lcr = refl;
  shown = refl;
  ready = rw e (data_taken u.lsr);
}
taken-ReadsKey u false e = record {
  buffer = refl;
  index = refl;
  lcr = refl;
  shown = refl;
  ready = rw e;
}

uart_io_read-ReadsKey :
    (u : Uart) (addr : ℕ)
    → register_of addr ≡ 0
    → bit u.lcr 7 ≡ false
    → ReadsKey u (uart_io_read u addr)
uart_io_read-ReadsKey u addr here closed =
    let r = taken-ReadsKey u (last_key u) refl in
    let k = uart_update_irq-Kept (taken u (last_key u)) in
    rw (uart_io_read-eq u addr here closed) (record {
      buffer = k.buffer ∙ r.buffer;
      index = k.index ∙ r.index;
      lcr = k.lcr ∙ r.lcr;
      shown = k.shown ∙ r.shown;
      ready = ap (λ x. bit x 0) k.lsr ∙ r.ready;
    })

-- The port after a round of the receiver, before its interrupt.
abbrev filled : Uart → (ℕ → ℕ) → Uart
filled u key =
    let (buffer, i) = read_keys key u.buffer in
    let lsr = bit_or u.lsr lsr_dr in
    record u {
      index = 3;
      buffer = buffer;
      lsr = lsr;
      rbr = buffer i;
      reg_hva = poke (poke u.reg_hva 0 (buffer i)) 5 lsr;
    }

read_keys-first : (key : ℕ → ℕ) (buffer : Memory) → (read_keys key buffer).0 0 ≡ key 0
unfolding read_keys
read_keys-first key buffer = ground arith

uart_receive-eq :
    (u : Uart) (key : ℕ → ℕ)
    → key 0 ≢ 0x40
    → key 0 ≢ 0x01
    → (uart_receive u key).0 ≡ uart_update_irq (filled u key)
unfolding uart_receive
uart_receive-eq u key a b =
    rw (read_keys-first key u.buffer, ==-eq-false (key 0) 0x40 a, ==-eq-false (key 0) 0x01 b)

filled-pending :
    (u : Uart) (key : ℕ → ℕ) → bit u.ier 0 ≡ true → pending_id (filled u key) ≢ iir_no_int
unfolding pending_id bit
filled-pending u key enabled =
    ground (arith, has-pow_two u.ier 0, has-pow_two (bit_or u.lsr 1) 0, bit-or u.lsr 1 0)

-- A key other than escape, `@` and 0x01 is typed while the receive interrupt is enabled (bit 0 of
-- IER) and the divisor latch is closed: every core that listens to the port has an interrupt
-- pending, and the guest's next read of the receive register shows the key and clears Data Ready.
pub uart_receive-read :
    (u : Uart) (key : ℕ → ℕ) (addr core : ℕ)
    → key 0 ≢ 0x1b
    → key 0 ≢ 0x40
    → key 0 ≢ 0x01
    → register_of addr ≡ 0
    → bit u.lcr 7 ≡ false
    → bit u.ier 0 ≡ true
    → Listens u.ciu core
    → let typed = (uart_receive u key).0 in
      (is_interrupt_pending (typed.ciu.cores core) ≡ true)
      × ((uart_io_read typed addr).reg_hva 0 ≡ key 0)
      × (bit (uart_io_read typed addr).lsr 0 ≡ false)
uart_receive-read u key addr core plain a b here closed enabled l =
    let typed = uart_update_irq (filled u key) in
    let k = uart_update_irq-Kept (filled u key) in
    let r = uart_io_read-ReadsKey typed addr here (ap (λ x. bit x 7) k.lcr ∙ closed) in
    let first : typed.buffer 0 ≡ key 0 =
      ap (λ (m : Memory). m 0) k.buffer ∙ read_keys-first key u.buffer in
    rw (uart_receive-eq u key a b) (
      uart_update_irq-raises (filled u key) core l (filled-pending u key enabled),
      r.shown ∙ rw k.index first,
      r.ready ∙ rw (k.index, first, ==-eq-false (key 0) 0x1b plain),
    )

escape_buffer :
    (u : Uart) (key : ℕ → ℕ)
    → key 0 ≡ 0x1b
    → (filled u key).buffer ≡ poke (poke (poke u.buffer 0 (key 0)) 1 (key 1)) 2 (key 2)
unfolding read_keys
escape_buffer u key e = rw e

-- After an escape and two more keys, with the divisor latch closed, the guest's next three reads of
-- the receive register show the three keys in order, and Data Ready is clear after the third only.
pub uart_receive-escape :
    (u : Uart) (key : ℕ → ℕ) (addr : ℕ)
    → key 0 ≡ 0x1b
    → register_of addr ≡ 0
    → bit u.lcr 7 ≡ false
    → let u₁ = uart_io_read (uart_receive u key).0 addr in
      let u₂ = uart_io_read u₁ addr in
      let u₃ = uart_io_read u₂ addr in
      (u₁.reg_hva 0 ≡ key 0)
      × (bit u₁.lsr 0 ≡ true)
      × (u₂.reg_hva 0 ≡ key 1)
      × (bit u₂.lsr 0 ≡ true)
      × (u₃.reg_hva 0 ≡ key 2)
      × (bit u₃.lsr 0 ≡ false)
uart_receive-escape u key addr escape here closed =
    let typed = uart_update_irq (filled u key) in
    let k = uart_update_irq-Kept (filled u key) in
    let u₁ = uart_io_read typed addr in
    let u₂ = uart_io_read u₁ addr in
    let closed₀ : bit typed.lcr 7 ≡ false = ap (λ x. bit x 7) k.lcr ∙ closed in
    let r₁ = uart_io_read-ReadsKey typed addr here closed₀ in
    let closed₁ : bit u₁.lcr 7 ≡ false = ap (λ x. bit x 7) r₁.lcr ∙ closed₀ in
    let r₂ = uart_io_read-ReadsKey u₁ addr here closed₁ in
    let closed₂ : bit u₂.lcr 7 ≡ false = ap (λ x. bit x 7) r₂.lcr ∙ closed₁ in
    let r₃ = uart_io_read-ReadsKey u₂ addr here closed₂ in
    let keys = k.buffer ∙ escape_buffer u key escape in
    let i₀ : typed.index ≡ 3 = k.index in
    let i₁ : u₁.index ≡ 2 = r₁.index ∙ rw i₀ in
    let i₂ : u₂.index ≡ 1 = r₂.index ∙ rw i₁ in
    let full : bit typed.lsr 0 ≡ true = ap (λ x. bit x 0) k.lsr ∙ data_ready u.lsr in
    let more₁ : bit u₁.lsr 0 ≡ true = r₁.ready ∙ rw (i₀, full, keys, escape) in
    let more₂ : bit u₂.lsr 0 ≡ true = r₂.ready ∙ rw (i₁, more₁, r₁.buffer, keys, escape) in
    rw (uart_receive-eq u key (omega arith) (omega arith)) (
      r₁.shown ∙ rw (i₀, keys),
      more₁,
      r₂.shown ∙ rw (i₁, r₁.buffer, keys),
      more₂,
      r₃.shown ∙ rw (i₂, r₂.buffer, r₁.buffer, keys),
      r₃.ready ∙ rw i₂,
    )

-- ===== src/Uart.antt =====
-- UART.h and UART.cpp: the serial port. The interrupt unit that it drives is the field `ciu`; the
-- shared register page `Reg_HVA` and `UART_Buffer` are functions of the word's index, the memory
-- behind the three words of the buffer included. Bytes written to the console are kept in `output`,
-- newest first. The keys that `getch` reads are an argument. The threads and terminal settings are
-- left out: each operation is one step.
pub mod Interrupts
pub mod Keys
use type_ii_hypervisor_code.Common.{
  ℕ, ◌+◌, ◌*◌, ◌-◌, ◌/◌, ◌%◌, ◌^◌, bit_and, bit_or, Bool, true, false, not, ◌&&◌, ◌||◌, ◌==◌,
  if◌then◌else◌, List, ◌∷◌,
}
use type_ii_hypervisor_code.Word.{has, not64, u8, sub64}
use type_ii_hypervisor_code.Ciu.{Ciu, generate_interrupt, clear_interrupt}
use type_ii_hypervisor_code.Ciu.Registers.{Memory, poke}

pub record Uart : Type 0 where
  pub rbr : ℕ
  pub thr : ℕ
  pub dll : ℕ
  pub ier : ℕ
  pub dlh : ℕ
  pub iir : ℕ
  pub fcr : ℕ
  pub lcr : ℕ
  pub mcr : ℕ
  pub lsr : ℕ
  pub msr : ℕ
  pub scr : ℕ
  pub far : ℕ
  pub index : ℕ
  pub buffer : Memory
  pub reg_hva : Memory
  pub thr_ipending : Bool
  pub output : List ℕ
  pub ciu : Ciu

abbrev pub iir_no_int : ℕ
iir_no_int = 0x01

abbrev pub iir_thri : ℕ
iir_thri = 0x02

abbrev pub iir_rlsi : ℕ
iir_rlsi = 0x06

abbrev pub iir_cti : ℕ
iir_cti = 0x0c

abbrev pub lsr_dr : ℕ
lsr_dr = 0x01

abbrev pub lsr_thre : ℕ
lsr_thre = 0x20

abbrev pub lsr_temt : ℕ
lsr_temt = 0x40

abbrev pub uart1_line : ℕ
uart1_line = 35

unfoldable pub uart_update_memory : Uart → Uart
uart_update_memory u =
    let m₁ = poke (poke u.reg_hva 0 u.rbr) 1 u.ier in
    let m₂ = poke (poke m₁ 2 u.iir) 3 u.lcr in
    let m₃ = poke (poke m₂ 4 u.mcr) 5 u.lsr in record u { reg_hva = poke (poke m₃ 6 u.msr) 7 u.scr }

unfoldable pub uart_reset : Uart → Uart
unfolding uart_update_memory
uart_reset u =
    let u' : Uart = record u {
      rbr = 0;
      ier = 0;
      iir = iir_no_int;
      lcr = 0;
      lsr = bit_or lsr_temt lsr_thre;
      msr = bit_or 0x80 (bit_or 0x20 0x10);
      mcr = 0x08;
      scr = 0;
    } in
    let u'' = uart_update_memory u' in record u'' { thr_ipending = false }

-- The local `tempiir` of `uart_update_irq`.
unfoldable pub pending_id : Uart → ℕ
unfolding has
pending_id u =
    if has u.ier 0x04 && has u.lsr 0x1e
    then iir_rlsi
    else if has u.ier 0x01 && has u.lsr lsr_dr
    then iir_cti
    else if has u.ier 0x02 && u.thr_ipending
    then iir_thri
    else iir_no_int

unfoldable pub uart_update_irq : Uart → Uart
uart_update_irq u =
    let id = pending_id u in
    let iir = bit_or id (bit_and u.iir 0xf0) in
    if not (id == iir_no_int)
    then record u {
      iir = iir;
      thr_ipending = false;
      reg_hva = poke u.reg_hva 2 iir;
      ciu = generate_interrupt u.ciu uart1_line;
    }
    else record u { iir = iir; ciu = clear_interrupt u.ciu uart1_line }

-- The register number of an address.
unfoldable pub register_of : ℕ → ℕ
register_of addr = bit_and addr 0xff / 8

-- `case THR_OFFSET`, which is the default too.
unfoldable pub write_thr : Uart → ℕ → Uart
unfolding has
write_thr u value =
    if has u.lcr 0x80
    then record u { dll = value }
    else uart_update_irq (record u {
      thr = value;
      lsr = bit_or (bit_and u.lsr (not64 lsr_thre)) (bit_or lsr_thre lsr_temt);
      output = u8 value ∷ u.output;
      thr_ipending = true;
    })

unfoldable pub write_ier : Uart → ℕ → Uart
unfolding has
write_ier u value =
    if has u.lcr 0x80
    then record u { dlh = value }
    else (let u' : Uart = record u { ier = bit_and value 0x0f } in
        if has u'.lsr lsr_thre then uart_update_irq u' else u')

unfoldable pub uart_io_write : Uart → ℕ → ℕ → Uart
unfolding write_thr write_ier
uart_io_write u addr value =
    let r = register_of addr in
    if r == 1
    then write_ier u value
    else if r == 2
    then record u { fcr = value }
    else if r == 3
    then record u { lcr = value }
    else if r == 4
    then record u { mcr = value }
    else if r == 5 || r == 6
    then u
    else if r == 7
    then record u { scr = value }
    else write_thr u value

-- `this->Reg_HVA[r] = v`.
abbrev pub show : Uart → ℕ → ℕ → Uart
show u r v = record u { reg_hva = poke u.reg_hva r v }

-- `case RBR_OFFSET`, which is the default too.
unfoldable pub read_rbr : Uart → Uart
unfolding has
read_rbr u =
    if has u.lcr 0x80
    then show u 0 u.dll
    else (let index = sub64 u.index 1 in
        let u₁ : Uart = record u {
          reg_hva = poke u.reg_hva 0 (u.buffer (sub64 3 u.index));
          index = index;
        } in
        let u₂ : Uart =
          if index == 0 || not (u.buffer 0 == 0x1b)
          then (let lsr = bit_and u₁.lsr (not64 lsr_dr) in
              record u₁ { lsr = lsr; reg_hva = poke u₁.reg_hva 5 lsr })
          else u₁ in
        uart_update_irq u₂)

unfoldable pub read_iir : Uart → Uart
read_iir u =
    let u' = show u 2 u.iir in
    if bit_and u.iir 0x06 == iir_thri
    then uart_update_irq (record u' { thr_ipending = false })
    else u'

unfoldable pub read_lsr : Uart → Uart
unfolding has
read_lsr u =
    let u' = show u 5 u.lsr in
    if has u.lsr 0x12 then uart_update_irq (record u' { lsr = bit_and u.lsr (not64 0x12) }) else u'

unfoldable pub read_msr : Uart → Uart
unfolding has
read_msr u =
    let u' = show u 6 u.msr in if has u.msr 0x0f then record u' { msr = bit_and u.msr 0xf0 } else u'

unfoldable pub uart_io_read : Uart → ℕ → Uart
unfolding read_rbr read_iir read_lsr read_msr has
uart_io_read u addr =
    let r = register_of addr in
    if r == 1
    then (if has u.lcr 0x80 then show u 1 u.dlh else show u 1 u.ier)
    else if r == 2
    then read_iir u
    else if r == 3
    then show u 3 u.lcr
    else if r == 4
    then show u 4 u.mcr
    else if r == 5
    then read_lsr u
    else if r == 6
    then read_msr u
    else if r == 7
    then show u 7 u.scr
    else if r == 8
    then show (record u { far = bit_or u.far 1 }) 8 (bit_or u.far 1)
    else read_rbr u

-- What a round of the receiver does beside: `printPC`, `raise(SIGUSR1)`, or neither.
pub data Request : Type 0 where
  serve : Request
  print_pc : Request
  switch_core : Request

-- The loop over `getch`: the buffer, and `i` behind it. Only an escape reads further keys.
unfoldable pub read_keys : (ℕ → ℕ) → Memory → Memory × ℕ
read_keys key buffer =
    let first = poke buffer 0 (key 0) in
    if not (first 0 == 0x1b) then (first, 0) else (poke (poke first 1 (key 1)) 2 (key 2), 3)

-- One round of `uart_receiver`.
unfoldable pub uart_receive : Uart → (ℕ → ℕ) → Uart × Request
unfolding read_keys
uart_receive u key =
    let (buffer, i) = read_keys key u.buffer in
    let lsr = bit_or u.lsr lsr_dr in
    let u' : Uart = record u {
      index = 3;
      buffer = buffer;
      lsr = lsr;
      rbr = buffer i;
      reg_hva = poke (poke u.reg_hva 0 (buffer i)) 5 lsr;
    } in
    if buffer 0 == 0x40
    then (u', Request.print_pc)
    else if buffer 0 == 0x01
    then (u', Request.switch_core)
    else (uart_update_irq u', Request.serve)

unfoldable pub send_signal : Uart → Uart
send_signal u =
    let lsr = bit_or u.lsr lsr_dr in
    uart_update_irq (record u {
      index = 3;
      buffer = poke u.buffer 0 3;
      rbr = 3;
      lsr = lsr;
      reg_hva = poke (poke u.reg_hva 0 3) 5 lsr;
    })

-- ===== src/Tests/Devices.antt =====
-- The serial port and the hash table at concrete inputs.
use type_ii_hypervisor_code.Common.{
  ℕ, ◌^◌, ◌≡◌, refl, true, false, ◌&&◌, arith, ◌==◌, if◌then◌else◌, leb, some, [], ◌∷◌, Result,
  Succeeds,
}
use type_ii_hypervisor_code.Word.{bit, u32}
use type_ii_hypervisor_code.Cp0.{Regs, is_interrupt_pending}
use type_ii_hypervisor_code.Ciu.Registers.{Memory}
use type_ii_hypervisor_code.Ciu.{Ciu}
use type_ii_hypervisor_code.Uart.{Uart, uart_io_read, uart_receive, register_of}
use type_ii_hypervisor_code.Uart.Interrupts.{Listens}
use type_ii_hypervisor_code.Uart.Keys.{uart_receive-read}
use type_ii_hypervisor_code.HashTable.{Table, ht_get, ht_put, ht_remove}
use type_ii_hypervisor_code.HashTable.Stacks.{stack_of, top, popped, ht_refines_stacks}

abbrev port_memory : Memory
port_memory j = if leb 64 j && leb j 111 then 2 ^ 35 else 0

abbrev port_regs : Regs
port_regs i = if i == 96 then 0x401 else 0

abbrev port_ciu : Ciu
port_ciu = record {
  memory = port_memory;
  cores = λ k. port_regs;
  nmi_pulse = λ k. false;
  num_cores = 4;
}

abbrev port : Uart
port = record {
  rbr = 0;
  thr = 0;
  dll = 0;
  ier = 3;
  dlh = 0;
  iir = 1;
  fcr = 0;
  lcr = 3;
  mcr = 8;
  lsr = 0x60;
  msr = 0xb0;
  scr = 0;
  far = 0;
  index = 0;
  buffer = λ i. 0;
  reg_hva = λ i. 0;
  thr_ipending = false;
  output = [];
  ciu = port_ciu;
}

port-Listens : Listens port.ciu 2
unfolding bit
port-Listens = record {
  used = omega arith;
  cores = omega arith;
  cause = omega arith;
  line = refl;
  unmasked = refl;
  enabled = (refl, refl, refl);
}

uart_receive-read_example :
    let typed = (uart_receive port (λ i. 97)).0 in
    (is_interrupt_pending (typed.ciu.cores 2) ≡ true)
    × ((uart_io_read typed 0x800).reg_hva 0 ≡ 97)
    × (bit (uart_io_read typed 0x800).lsr 0 ≡ false)
unfolding bit register_of
uart_receive-read_example =
    uart_receive-read port (λ i. 97) 0x800 2 (omega arith) (omega arith) (omega arith) refl refl
      refl port-Listens

abbrev arrow_key : ℕ → ℕ
arrow_key i = if i == 0 then 0x1b else if i == 1 then 0x5b else 0x41

abbrev one_node : Table
one_node = record { table = λ i. record { val = 8; key = 3 } ∷ []; size = 7 }

ht_refines_stacks_example :
    (ht_get (some one_node) 10 ≡ Result.ok (top (stack_of (some one_node) 10)))
    × Succeeds
        (λ ht'.
          stack_of ht' 10
          ≡ (if 3 == 10 then u32 5 ∷ stack_of (some one_node) 10 else stack_of (some one_node) 10))
        (ht_put (some one_node) 3 5)
    × Succeeds
        (λ ht'.
          stack_of ht' 10
          ≡ (if 3 == 10 then popped (stack_of (some one_node) 10) else stack_of (some one_node) 10))
        (ht_remove (some one_node) 3)
ht_refines_stacks_example = ht_refines_stacks one_node 3 5 10 (omega arith)

-- ===== src/Tests/Interrupts.antt =====
-- The central interrupt unit at concrete inputs.
use type_ii_hypervisor_code.Common.{
  ◌^◌, ◌≡◌, refl, true, false, ◌&&◌, arith, ◌==◌, if◌then◌else◌, leb,
}
use type_ii_hypervisor_code.Word.{bit}
use type_ii_hypervisor_code.Cp0.{Regs, is_interrupt_pending}
use type_ii_hypervisor_code.Ciu.Registers.{Memory}
use type_ii_hypervisor_code.Ciu.{Ciu, generate_interrupt}
use type_ii_hypervisor_code.Ciu.Broadcast.{generate_interrupt-pending}

-- Line 35 (UART1) enabled for every core's IP2; the cores take interrupts on it.
abbrev board_memory : Memory
board_memory j = if leb 64 j && leb j 111 then 2 ^ 35 else 0

abbrev open_regs : Regs
open_regs i = if i == 96 then 0x401 else 0

abbrev board : Ciu
board = record {
  memory = board_memory;
  cores = λ k. open_regs;
  nmi_pulse = λ k. false;
  num_cores = 4;
}

generate_interrupt-pending_example :
    is_interrupt_pending ((generate_interrupt board 35).cores 2) ≡ true
unfolding bit
generate_interrupt-pending_example =
    generate_interrupt-pending board 2 35 (omega arith) (omega arith) (omega arith) (omega arith)
      refl refl (refl, refl, refl)

-- ===== src/Tests/Core.antt =====
-- Coprocessor 0 and exceptions at concrete inputs.
use type_ii_hypervisor_code.Common.{◌/◌, ◌%◌, bit_and, ◌≡◌, false, arith, ◌==◌, if◌then◌else◌}
use type_ii_hypervisor_code.Word.{bit}
use type_ii_hypervisor_code.Context.{Context, get_pc}
use type_ii_hypervisor_code.Cp0.{Regs, read, get_ksu, is_interrupt_pending}
use type_ii_hypervisor_code.Cp0.Modes.{status_of, cause_of}
use type_ii_hypervisor_code.Exception.{enter}
use type_ii_hypervisor_code.Exception.Entry.{enter-kernel, enter-records}

-- User mode with interrupts on; line 10 raised in Cause.
abbrev user_regs : Regs
user_regs i = if i == 96 then 0x8411 else if i == 104 then 0x400 else if i == 72 then 41 else 0

abbrev at_pc : Context
at_pc = record { loadstore = 1; pc = 0x1_2000_0040; write_data = 7 }

enter-kernel_example :
    let after = (enter user_regs 0x4000 3 3 at_pc).1 in
    (get_ksu after ≡ 0) × (is_interrupt_pending after ≡ false)
enter-kernel_example = enter-kernel user_regs 0x4000 3 3 at_pc

enter-records_example :
    let after = (enter user_regs 0x4000 3 3 at_pc).1 in
    (read after 8 0 ≡ 0x4000)
    × (cause_of after / 4 % 32 ≡ 3)
    × (bit_and (cause_of after) 0xff00 ≡ bit_and (cause_of user_regs) 0xff00)
    × (read after 14 0
        ≡ (if bit (status_of user_regs) 1 then read user_regs 14 0 else get_pc at_pc))
    × (read after 30 0
        ≡ (if bit (status_of user_regs) 1 then get_pc at_pc else read user_regs 30 0))
enter-records_example = enter-records user_regs 0x4000 3 3 at_pc (omega arith) (omega arith)

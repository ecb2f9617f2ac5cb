-- ===== src/Timers.antt =====
-- timer.h and timer.cpp: the host timer that a write of Compare arms, and its signal handler. What
-- `timer_settime` is given is the result. The registration of the timer is left out. The factor
-- between the two clocks is a `double`: `guest_time` takes a time of the host to one of the guest,
-- and `start_of` gives the time of the host at which a counter that has a value now was 0.
pub mod Waits
use type_ii_hypervisor_code.Common.{
  ℕ, ◌+◌, ◌*◌, ◌/◌, ◌%◌, ◌^◌, bit_and, if◌then◌else◌, Bool, true, false, not, ◌&&◌, ◌==◌, ltb,
}
use type_ii_hypervisor_code.Word.{u32, sub64}
use type_ii_hypervisor_code.Cp0.{Regs, read, write}
use type_ii_hypervisor_code.Cp0.Registers.{
  h2_cp0_count, h2_cp0_compare, h2_cp0_cause, h2_cp0_cvmcount_6,
}
use type_ii_hypervisor_code.Processor.{Processor}
use type_ii_hypervisor_code.Processor.Requests.{set_timer_tick}

-- `it_value`, in seconds and nanoseconds.
pub record Timeout : Type 0 where
  pub tv_sec : ℕ
  pub tv_nsec : ℕ

abbrev pub latency : ℕ
latency = 10

-- `d` as an `int`, which is positive below 2 ^ 31, and the time before it is scaled.
unfoldable pub time_of : ℕ → ℕ → ℕ
time_of compare count =
    let d = u32 (sub64 compare count) in
    if ltb 0 d && ltb d (2 ^ 31) then d else u32 (0xffff_ffff + d)

unfoldable pub timeout_of : ℕ → Timeout
timeout_of time =
    if ltb 1_000_000_000 time
    then record { tv_sec = time / 1_000_000_000; tv_nsec = time % 1_000_000_000 }
    else record { tv_sec = 0; tv_nsec = time }

unfoldable pub reset_timer : Regs → Timeout
unfolding time_of timeout_of
reset_timer regs =
    let count = bit_and (read regs h2_cp0_count 0) 0xffff_ffff in
    let compare = bit_and (read regs h2_cp0_compare 0) 0xffff_ffff in
    timeout_of (time_of compare count * latency)

unfoldable pub compare_write : Processor → Timeout
unfolding reset_timer
compare_write p = reset_timer p.tlb.regs

-- `TimerUnit_Handler`.
unfoldable pub timer_unit_handler : Processor → ℕ → Processor
unfolding set_timer_tick
timer_unit_handler p now =
    if not (read p.tlb.regs h2_cp0_compare 0 == 0) then set_timer_tick p now else p

pub record Clock : Type 0 where
  pub start_of_time : ℕ
  pub start_of_cvm_time : ℕ

-- With bit 28 of Cause set the counters stay.
unfoldable pub update_counter : (ℕ → ℕ) → Clock → ℕ → Regs → Regs
update_counter guest_time clock now regs =
    if bit_and (read regs h2_cp0_cause 0) 0x1000_0000 == 0
    then write
        (write regs (bit_and (guest_time (sub64 now clock.start_of_time)) 0xffff_ffff) h2_cp0_count
          0)
        (guest_time (sub64 now clock.start_of_cvm_time)) h2_cp0_cvmcount_6 6
    else regs

unfoldable pub update_timer : (ℕ → ℕ → ℕ) → Clock → ℕ → Regs → Clock × Timeout
unfolding reset_timer
update_timer start_of clock now regs =
    (record clock { start_of_time = start_of now (read regs h2_cp0_count 0) }, reset_timer regs)

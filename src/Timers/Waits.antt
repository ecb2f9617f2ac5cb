-- ===== src/Timers/Waits.antt =====
-- timer.cpp: for how long the timer is armed, and when the setting is one that `timer_settime`
-- takes.
use type_ii_hypervisor_code.Common.{
  ℕ, ◌≡◌, ◌≢◌, ◌↔◌, ◌+◌, ◌-◌, ◌*◌, ◌%◌, ◌^◌, ◌<◌, ◌&&◌, ltb, if◌then◌else◌, arith,
}
use type_ii_hypervisor_code.Word.{sub64}
use type_ii_hypervisor_code.Word.Masks.{and-low_mask}
use type_ii_hypervisor_code.Cp0.{Regs, read}
use type_ii_hypervisor_code.Cp0.Registers.{h2_cp0_count, h2_cp0_compare}
use type_ii_hypervisor_code.Timers.{time_of, timeout_of, reset_timer}

time_of_lem :
    (compare count d : ℕ)
    → compare < 2 ^ 32
    → count < 2 ^ 32
    → d < 2 ^ 32
    → (count + d) % 2 ^ 32 ≡ compare
    → time_of compare count ≡ (if ltb 0 d && ltb d (2 ^ 31) then d else (d + 2 ^ 32 - 1) % 2 ^ 32)
unfolding time_of
time_of_lem compare count d small small' less turn =
    let same : sub64 compare count % 2 ^ 32 ≡ d = omega arith in rw same (ground arith)

timeout_of-total :
    (time : ℕ) → (timeout_of time).tv_sec * 1_000_000_000 + (timeout_of time).tv_nsec ≡ time
unfolding timeout_of
timeout_of-total time = ground arith

timeout_of-valid : (time : ℕ) → ((timeout_of time).tv_nsec < 1_000_000_000) ↔ (time ≢ 1_000_000_000)
unfolding timeout_of
timeout_of-valid time = ground arith

one_second :
    (d : ℕ)
    → d < 2 ^ 32
    → ((if ltb 0 d && ltb d (2 ^ 31) then d else (d + 2 ^ 32 - 1) % 2 ^ 32) * 10 ≡ 1_000_000_000)
      ↔ (d ≡ 100_000_000)
one_second d less = ground arith

-- Where Count reaches Compare after d ticks, d below 2 ^ 32, the timer is armed for ten nanoseconds
-- a tick: for d ticks below half a turn, and for one tick less than d or than the whole turn from
-- half a turn on and at 0. The nanoseconds are below a second, as `timer_settime` demands, exactly
-- when d is not 100000000.
pub reset_timer_lem :
    (regs : Regs) (d : ℕ)
    → d < 2 ^ 32
    → (read regs h2_cp0_count 0 + d) % 2 ^ 32 ≡ read regs h2_cp0_compare 0 % 2 ^ 32
    → let timeout = reset_timer regs in
      (timeout.tv_sec * 1_000_000_000 + timeout.tv_nsec
        ≡ (if ltb 0 d && ltb d (2 ^ 31) then d else (d + 2 ^ 32 - 1) % 2 ^ 32) * 10)
      × ((timeout.tv_nsec < 1_000_000_000) ↔ (d ≢ 100_000_000))
unfolding reset_timer
reset_timer_lem regs d less turn =
    let count = read regs h2_cp0_count 0 in
    let compare = read regs h2_cp0_compare 0 in
    let time : time_of (compare % 2 ^ 32) (count % 2 ^ 32)
        ≡ (if ltb 0 d && ltb d (2 ^ 31) then d else (d + 2 ^ 32 - 1) % 2 ^ 32) =
      time_of_lem (compare % 2 ^ 32) (count % 2 ^ 32) d (omega arith) (omega arith) less
        (omega (arith, turn)) in
    rw (and-low_mask 32 count, and-low_mask 32 compare, time)
      (
        timeout_of-total _,
        (
          (λ small e. (timeout_of-valid _).0 small ((one_second d less).1 e)),
          (λ other. (timeout_of-valid _).1 (λ e. other ((one_second d less).0 e))),
        ),
      )

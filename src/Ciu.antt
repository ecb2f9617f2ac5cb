-- ===== src/Ciu.antt =====
-- CIU.h and CIU.cpp: the central interrupt unit. Its register pointers, which `setMappings` sets,
-- all point into one memory-mapped region, so the region is one function of the 64-bit word's
-- offset and each pointer is its offset: two pointers may name one word. The cores' coprocessors
-- are a function of the core's number. The bit fields of the unions are those of a big-endian
-- host, as the numbers CIU_SUM_MBOX0 (32) and CIU_SUM_UART1 (35) for bits of the same words show.
pub mod Registers
pub mod Lines
pub mod Broadcast
pub mod Mailbox
pub mod Enables
pub mod Dispatch
use type_ii_hypervisor_code.Common.{
  ℕ, zero, suc, ◌+◌, ◌*◌, ◌-◌, ◌^◌, ◌%◌, ◌/◌, bit_and, bit_or, if◌then◌else◌, Bool, true, false,
  not, ◌&&◌, ◌==◌, ltb, leb, Option, none, some,
}
use type_ii_hypervisor_code.Word.{has, not64, shl, shr}
use type_ii_hypervisor_code.Cp0.{Regs, read, write}
use Registers.{
  Memory, poke, int_sum0, int_en0, int_sum4, int_en4_0, mbox_set, mbox_clr, en0_w1c, en4_0_w1c,
  en0_w1s, en4_0_w1s, pp_rst, nmi, fuse,
}

pub record Ciu : Type 0 where
  pub memory : Memory
  pub cores : ℕ → Regs
  pub nmi_pulse : ℕ → Bool  -- `NMI` of each core
  pub num_cores : ℕ

-- `v |= m` or `v &= ~m`.
abbrev pub put_bits : Bool → ℕ → ℕ → ℕ
put_bits on v m = if on then bit_or v m else bit_and v (not64 m)

-- `updateInterrupt(core)`.
unfoldable pub update_interrupt : Ciu → ℕ → Ciu
unfolding has
update_interrupt c core =
    let i = core * 2 in
    let cause = read (c.cores core) 13 0 in
    let ip2 = has (c.memory (int_sum0 i)) (c.memory (int_en0 i)) in
    let ip3 = has (c.memory (int_sum0 (i + 1))) (c.memory (int_en0 (i + 1))) in
    let ip4 = has (c.memory (int_sum4 core)) (c.memory (int_en4_0 core)) in
    let cause' = put_bits ip4 (put_bits ip3 (put_bits ip2 cause 0x400) 0x800) 0x1000 in
    record c { cores = λ k. if k == core then write (c.cores core) cause' 13 0 else c.cores k }

-- One bit of the three summary words of a core.
unfoldable pub put_summary : Bool → Memory → ℕ → ℕ → Memory
put_summary on mem core flag =
    let m₁ = poke mem (int_sum0 (core * 2)) (put_bits on (mem (int_sum0 (core * 2))) flag) in
    let m₂ = poke m₁ (int_sum0 (core * 2 + 1)) (put_bits on (m₁ (int_sum0 (core * 2 + 1))) flag) in
    poke m₂ (int_sum4 core) (put_bits on (m₂ (int_sum4 core)) flag)

abbrev pub mbox0 : ℕ
mbox0 = 2 ^ 32

abbrev pub mbox1 : ℕ
mbox1 = 2 ^ 33

abbrev pub lower_half : ℕ → ℕ
lower_half v = v % 2 ^ 16

abbrev pub upper_half : ℕ → ℕ
upper_half v = v / 2 ^ 16 % 2 ^ 16

unfoldable pub handle_mbox_set : Memory → ℕ → ℕ → Memory
unfolding put_summary
handle_mbox_set mem core value =
    let m₁ = poke mem (mbox_set core) value in
    let m₂ = poke m₁ (mbox_clr core) value in
    let set = m₂ (mbox_set core) in
    if not (lower_half set == 0)
    then put_summary true m₂ core mbox0
    else if not (upper_half set == 0)
    then put_summary true m₂ core mbox1
    else m₂

unfoldable pub handle_mbox_clr : Memory → ℕ → ℕ → Memory
unfolding put_summary
handle_mbox_clr mem core value =
    let m₁ = poke mem (mbox_set core) (bit_and (mem (mbox_set core)) (not64 value)) in
    let m₂ = if lower_half (m₁ (mbox_set core)) == 0 then put_summary false m₁ core mbox0 else m₁ in
    let m₃ = if upper_half (m₂ (mbox_set core)) == 0 then put_summary false m₂ core mbox1 else m₂ in
    poke m₃ (mbox_clr core) (m₃ (mbox_set core))

-- The enable handlers, from the register's distance `i` to the first of its group; an odd `i` is an
-- EN1 register, which is not implemented. Each returns the memory; the core is `i / 4` or `i / 2`.
unfoldable pub handle_enable0 : Memory → ℕ → ℕ → Memory
handle_enable0 mem i value = if i % 2 == 0 then poke mem (int_en0 (i / 2)) value else mem

unfoldable pub handle_enable4 : Memory → ℕ → ℕ → Memory
handle_enable4 mem i value = if i % 2 == 0 then poke mem (int_en4_0 (i / 2)) value else mem

unfoldable pub handle_enable0_w1c : Memory → ℕ → ℕ → Memory
handle_enable0_w1c mem i value =
    if i % 2 == 0
    then poke (poke mem (int_en0 (i / 2)) (bit_and (mem (int_en0 (i / 2))) (not64 value)))
        (en0_w1c (i / 2)) 0
    else mem

unfoldable pub handle_enable4_w1c : Memory → ℕ → ℕ → Memory
handle_enable4_w1c mem i value =
    if i % 2 == 0
    then poke (poke mem (int_en4_0 (i / 2)) (bit_and (mem (int_en4_0 (i / 2))) (not64 value)))
        (en4_0_w1c (i / 2)) 0
    else mem

unfoldable pub handle_enable0_w1s : Memory → ℕ → ℕ → Memory
handle_enable0_w1s mem i value =
    if i % 2 == 0
    then poke (poke mem (int_en0 (i / 2)) (bit_or (mem (int_en0 (i / 2))) value)) (en0_w1s (i / 2))
        0
    else mem

unfoldable pub handle_enable4_w1s : Memory → ℕ → ℕ → Memory
handle_enable4_w1s mem i value =
    if i % 2 == 0
    then poke (poke mem (int_en4_0 (i / 2)) (bit_or (mem (int_en4_0 (i / 2))) value))
        (en4_0_w1s (i / 2)) 0
    else mem

-- The loop of `sendNMI` from core `i`, with the mask shifted right `i` times.
unfoldable pub nmi_loop : ℕ → ℕ → ℕ → ℕ → (ℕ → Bool) → ℕ → Bool
nmi_loop zero mask i num_cores pulses = pulses
nmi_loop (suc left) mask i num_cores pulses =
    nmi_loop left (shr mask 1) (i + 1) num_cores (
      if mask % 2 == 1 && ltb i num_cores then (λ k. if k == i then true else pulses k) else pulses)

-- Twelve rounds empty the twelve bits of the mask.
unfoldable pub send_nmi : Ciu → ℕ → Ciu
unfolding nmi_loop
send_nmi c value = record c {
  memory = poke c.memory nmi 0;
  nmi_pulse = nmi_loop 12 (bit_and value 0xfff) 0 c.num_cores c.nmi_pulse;
}

-- The body of the loops of `generateInterrupt` and `clearInterrupt`, and the loops, from `core`.
unfoldable pub put_line : Bool → ℕ → Ciu → ℕ → Ciu
put_line on flag c core =
    update_interrupt (record c { memory = put_summary on c.memory core flag }) core

unfoldable pub line_loop : Bool → ℕ → ℕ → ℕ → Ciu → Ciu
line_loop on flag zero core c = c
line_loop on flag (suc left) core c = line_loop on flag left (core + 1) (put_line on flag c core)

unfoldable pub generate_interrupt : Ciu → ℕ → Ciu
generate_interrupt c offset = line_loop true (shl 1 offset) c.num_cores 0 c

unfoldable pub clear_interrupt : Ciu → ℕ → Ciu
clear_interrupt c offset = line_loop false (shl 1 offset) c.num_cores 0 c

-- What `updateFlags` comes to: the new state, `raise(SIGTERM)`, or a value used that a function
-- did not return.
pub data Outcome : Type 0 where
  done : Ciu → Outcome
  soft_reset : Outcome
  undefined : Outcome

abbrev pub within : ℕ → ℕ → ℕ → Bool
within first last offset = leb offset last && leb first offset

-- The handler's memory, then `updateInterrupt(core)`.
unfoldable pub handled : Ciu → Memory → ℕ → Outcome
handled c mem core = done (update_interrupt (record c { memory = mem }) core)

unfoldable pub update_flags : Ciu → ℕ → ℕ → Outcome
unfolding handled
update_flags c addr value =
    let offset = bit_and addr 0x7fff / 8 in
    let mem = c.memory in
    if within 64 111 offset
    then handled c (handle_enable0 mem (offset - 64) value) ((offset - 64) / 4)
    else if within 192 203 offset
    then handled c (handle_mbox_set mem (offset - 192) value) (offset - 192)
    else if within 208 219 offset
    then handled c (handle_mbox_clr mem (offset - 208) value) (offset - 208)
    else if offset == 227
    then done (send_nmi c value)
    else if offset == 232
    then soft_reset
    else if within 400 423 offset
    then handled c (handle_enable4 mem (offset - 400) value) ((offset - 400) / 2)
    else if within 1088 1135 offset
    then handled c (handle_enable0_w1c mem (offset - 1088) value) ((offset - 1088) / 4)
    else if within 1424 1447 offset
    then (if (offset - 1424) % 2 == 0
        then undefined
        else handled c (handle_enable4_w1c mem (offset - 1424) value) ((offset - 1424) / 2))
    else if within 3136 3183 offset
    then handled c (handle_enable0_w1s mem (offset - 3136) value) ((offset - 3136) / 4)
    else if within 3472 3495 offset
    then handled c (handle_enable4_w1s mem (offset - 3472) value) ((offset - 3472) / 2)
    else done c

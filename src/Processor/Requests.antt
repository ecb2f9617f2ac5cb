-- ===== src/Processor/Requests.antt =====
-- Processor_IPE.cpp: the handlers of the control marks. A handler's result true is `ok`, and its
-- false, which stops the process, is `exited`. The address at which the emitted code is resumed
-- is left out.
use type_ii_hypervisor_code.Common.{
  ℕ, bit_and, bit_or, if◌then◌else◌, true, false, not, ◌&&◌, ◌==◌, ltb, Option, none, some, Result,
  and_then,
}
use type_ii_hypervisor_code.Word.{add64}
use type_ii_hypervisor_code.Cp0.{Regs, read, write, is_interrupt_pending}
use type_ii_hypervisor_code.MemoryMap.{Mmap}
use type_ii_hypervisor_code.Exception.{perform_exception, scall, trap, exc_int}
use type_ii_hypervisor_code.Tlb.{tlb_write_index, tlb_random, tlb_read, tlb_probe}
use type_ii_hypervisor_code.AddrCache.{clear_cache}
use type_ii_hypervisor_code.Layout.{control_from_end_of_block}
use type_ii_hypervisor_code.Processor.{Processor, set_regs, set_pc, brk, ri, ov, mips_rest_vec}
use type_ii_hypervisor_code.Processor.Blocks.{fetch_next_block}

-- `*(this->pc) = Perform_Exception(...)`
abbrev pub entered : Processor → Option (ℕ × Regs) → Result Processor
entered p none = Result.exited
entered p (some (pc, regs)) = Result.ok (set_pc (set_regs p regs) pc)

unfoldable pub raise : Processor → ℕ → ℕ → Result Processor
raise p gva exp_type = entered p (perform_exception p.tlb.regs gva exp_type p.context)

unfoldable pub tlb_write_i : Processor → Processor
tlb_write_i p = record p { tlb = tlb_write_index p.tlb; addr_cache = clear_cache p.addr_cache }

unfoldable pub tlb_write : Processor → ℕ → Processor
tlb_write p random = record p {
  tlb = tlb_random p.tlb random;
  addr_cache = clear_cache p.addr_cache;
}

unfoldable pub tlb_probe_request : Processor → Processor
tlb_probe_request p = record p { tlb = tlb_probe p.tlb }

unfoldable pub tlb_read_request : Processor → Processor
tlb_read_request p = record p { tlb = tlb_read p.tlb }

unfoldable pub handle_asid_change : Processor → Processor
handle_asid_change p =
    let entry_hi = bit_and (read p.tlb.regs 10 0) 0xff in
    if not (p.asid == entry_hi)
    then record p { addr_cache = clear_cache p.addr_cache; asid = entry_hi }
    else p

unfoldable pub set_nmi : Processor → Processor
set_nmi p = record p { nmi = true }

unfoldable pub handle_nmi : Processor → Processor
handle_nmi p =
    let status = bit_and (bit_or (read p.tlb.regs 12 0) 0x0048_0004) 0xffcf_ffff in
    record (set_pc (set_regs p (write p.tlb.regs status 12 0)) mips_rest_vec) {
      control_mark = control_from_end_of_block;
      block_start = 0;
      block_end = 0;
      nmi = false;
    }

-- TI and IP7; `now` is the time in nanoseconds.
unfoldable pub set_timer_tick : Processor → ℕ → Processor
set_timer_tick p now =
    let cause = bit_or (read p.tlb.regs 13 0) (bit_or 0x4000_0000 0x8000) in
    record (set_regs p (write p.tlb.regs cause 13 0)) { last_intrpt_time = now }

unfoldable pub execute_pending_interrupts : Processor → Result Processor
unfolding raise
execute_pending_interrupts p = raise p p.context.pc exc_int

module _ (negative : ℕ) (mmap : Mmap) (memory : ℕ → ℕ) (fuel : ℕ) where
  -- An exception at the current address, then the block of its handler.
  unfoldable pub raise_and_fetch : Processor → ℕ → Result Processor
  unfolding raise
  raise_and_fetch p exp_type = and_then (raise p p.context.pc exp_type) (λ p'.
      fetch_next_block negative mmap memory fuel
        (record p' { control_mark = control_from_end_of_block }))

  unfoldable pub syscall : Processor → Result Processor
  unfolding raise_and_fetch
  syscall p = raise_and_fetch p scall

  unfoldable pub handle_br : Processor → Result Processor
  unfolding raise_and_fetch
  handle_br p = raise_and_fetch p brk

  unfoldable pub handle_trap : Processor → Result Processor
  unfolding raise_and_fetch
  handle_trap p = raise_and_fetch p trap

  unfoldable pub handle_ri : Processor → Result Processor
  unfolding raise_and_fetch
  handle_ri p = raise_and_fetch p ri

  unfoldable pub handle_sig_fpe : Processor → Result Processor
  unfolding raise_and_fetch
  handle_sig_fpe p = raise_and_fetch p ov

  -- Once an interrupt is pending.
  unfoldable pub handle_wait : Processor → Result Processor
  unfolding raise
  handle_wait p =
      and_then (raise (set_pc p (add64 p.context.pc 4)) 0 exc_int)
        (fetch_next_block negative mmap memory fuel)

  -- The end of `NewBlock`: the current block again, or the next one.
  abbrev pub go_on : Processor → Result Processor
  go_on p =
      if p.context.pc == 0
      then Result.exited
      else let p' = if p.nmi then handle_nmi p else p in
        if not (p'.context.pc == p'.block_start)
        then fetch_next_block negative mmap memory fuel p'
        else Result.ok p'

  -- A timer tick is made up when three seconds have gone by without one.
  unfoldable pub new_block : Processor → ℕ → Result Processor
  unfolding set_timer_tick execute_pending_interrupts handle_nmi
  new_block p now =
      let late =
        not (p.last_intrpt_time == 0) && ltb (add64 p.last_intrpt_time 3_000_000_000) now in
      let p' = if late then set_timer_tick p now else p in
      and_then
        (if is_interrupt_pending p'.tlb.regs then execute_pending_interrupts p' else Result.ok p')
        go_on

-- ===== src/Dispatch.antt =====
-- Processor_IPE.cpp: the table `cases`, and `C2Assembly2C` up to the run of the emitted code and at
-- each return from it. The emitted code is left out; what it left in the core is the state that a
-- request starts with.
pub mod Memory
pub mod Fetches
pub mod Handlers
pub mod Kept
use type_ii_hypervisor_code.Common.{ℕ, ◌==◌, if◌then◌else◌, not, Bool, ◌≡◌, Result, and_then}
use type_ii_hypervisor_code.Cp0.{corenum}
use type_ii_hypervisor_code.MemoryMap.{Mmap}
use type_ii_hypervisor_code.Layout.{control_from_end_of_block}
use type_ii_hypervisor_code.Processor.{Processor, mips_rest_vec, set_pc}
use type_ii_hypervisor_code.Processor.Access.{Access, handle_ldst}
use type_ii_hypervisor_code.Processor.Requests.{
  new_block, syscall, tlb_probe_request, tlb_read_request, tlb_write_i, tlb_write,
  handle_asid_change, handle_wait, handle_br, handle_trap, handle_ri,
}
use type_ii_hypervisor_code.Timers.{Clock, Timeout, compare_write, update_timer}

-- A core with what its handlers use. `tlb_data` is the address of a load or a store, and `armed`
-- what the host timer was given last.
pub record Machine : Type 0 where
  pub access : Access
  pub tlb_data : ℕ
  pub clock : Clock
  pub armed : Timeout

-- What a handler made of the core.
abbrev pub with_core : Machine → Processor → Result Machine
with_core m p = Result.ok (record m { access = record m.access { core = p } })

abbrev pub with_access : Machine → Access → Result Machine
with_access m a = Result.ok (record m { access = a })

-- What came from outside: a random number and the time.
pub record Outside : Type 0 where
  pub random : ℕ
  pub now : ℕ

-- `C2Assembly2C` before the first request; a core other than the first has its NMI by then.
unfoldable pub start_core : Machine → Result Machine
unfolding corenum
start_core m =
    let p = m.access.core in
    with_core m (record (set_pc p mips_rest_vec) {
      control_mark = control_from_end_of_block;
      nmi = if not (corenum p.tlb.regs == 0) then Bool.false else p.nmi;
      block_start = 0;
      block_end = 0;
    })

module _ (negative : ℕ) (mmap : Mmap) (memory : ℕ → ℕ) (fuel : ℕ) (start_of : ℕ → ℕ → ℕ) where
  -- `cases[*(this->controlMark)]`; the array has 15 entries. The log has no effect on the core.
  unfoldable pub handle_request : Machine → Outside → Result Machine
  unfolding handle_ldst new_block syscall tlb_probe_request tlb_read_request tlb_write_i tlb_write
      handle_asid_change handle_wait compare_write update_timer handle_br handle_trap handle_ri
  handle_request m o =
      let p = m.access.core in
      let mark = p.control_mark in
      if mark == 0
      then and_then (handle_ldst negative mmap memory fuel m.access m.tlb_data) (with_access m)
      else if mark == 1
      then and_then (new_block negative mmap memory fuel p o.now) (with_core m)
      else if mark == 2
      then and_then (syscall negative mmap memory fuel p) (with_core m)
      else if mark == 3
      then with_core m (tlb_probe_request p)
      else if mark == 4
      then with_core m (tlb_read_request p)
      else if mark == 5
      then with_core m (tlb_write_i p)
      else if mark == 6
      then with_core m (tlb_write p o.random)
      else if mark == 7
      then with_core m (handle_asid_change p)
      else if mark == 8
      then and_then (handle_wait negative mmap memory fuel p) (with_core m)
      else if mark == 9
      then Result.ok (record m { armed = compare_write p })
      else if mark == 10
      then (let (clock, armed) = update_timer start_of m.clock o.now p.tlb.regs in
          Result.ok (record m { clock = clock; armed = armed }))
      else if mark == 11
      then Result.ok m
      else if mark == 12
      then and_then (handle_br negative mmap memory fuel p) (with_core m)
      else if mark == 13
      then and_then (handle_trap negative mmap memory fuel p) (with_core m)
      else if mark == 14
      then and_then (handle_ri negative mmap memory fuel p) (with_core m)
      else Result.undefined

  -- What happens to a core: a request is served, or the emitted code runs and may change everything
  -- but the memory map. No other thread is in the memory map meanwhile; for the threads that share
  -- it see `MemoryMap.Threads`.
  pub data Turn : Machine → Machine → Type 0 where
    request : (m m' : Machine) (o : Outside) → handle_request m o ≡ Result.ok m' → Turn m m'
    emitted_code : (m m' : Machine) → m'.access.core.regions ≡ m.access.core.regions → Turn m m'

  -- Any number of them.
  pub data Run (m : Machine) : Machine → Type 0 where
    here : Run m m
    next : {m' m'' : Machine} → Run m m' → Turn m' m'' → Run m m''

-- ===== src/Dispatch/Handlers.antt =====
-- Processor_IPE.cpp and IOManager.cpp: that no handler moves guest memory.
use type_ii_hypervisor_code.Common.{
  ℕ, ltb, ◌==◌, if◌then◌else◌, not, Bool, true, false, Option-cases, inl, inr, Option, none, some,
  Result, and_then, Holds, Holds-all, Holds-if, and_then-Holds,
}
use type_ii_hypervisor_code.MemoryMap.{Regions, Mmap}
use type_ii_hypervisor_code.Context.{Context}
use type_ii_hypervisor_code.AddrCache.{check_cache}
use type_ii_hypervisor_code.Io.{IoManager, file_hva, other_device, io_gva_to_hva}
use type_ii_hypervisor_code.Exception.{perform_exception}
use type_ii_hypervisor_code.Processor.Blocks.{fetch_next_block}
use type_ii_hypervisor_code.Processor.Requests.{raise}
use type_ii_hypervisor_code.Processor.{Processor, addr_translation}
use type_ii_hypervisor_code.Dispatch.Memory.{At, Core, Answered, gpa_to_hva-At, addr_translation-At}
use type_ii_hypervisor_code.Dispatch.Fetches.{fetch_next_block-At}
use type_ii_hypervisor_code.Common.{leb, ◌&&◌}
use type_ii_hypervisor_code.Word.{add64}
use type_ii_hypervisor_code.Cp0.{is_interrupt_pending}
use type_ii_hypervisor_code.Io.{
  ciu_base_addr, ciu_end_addr, uart0_base_addr, uart1_end_addr, vblk_base_addr, vblk_end_addr,
  is_io_addr, ciu_id, uart_id, vblk_id, on_write, update_message_box,
}
use type_ii_hypervisor_code.Mmu.{gva_to_gpa_for_fileloading}
use type_ii_hypervisor_code.Exception.{exc_int}
use type_ii_hypervisor_code.Layout.{control_from_end_of_block}
use type_ii_hypervisor_code.Processor.{set_pc}
use type_ii_hypervisor_code.Processor.Requests.{
  raise_and_fetch, handle_wait, go_on, new_block, handle_nmi, set_timer_tick,
  execute_pending_interrupts, handle_asid_change,
}
use type_ii_hypervisor_code.Processor.Access.{Access, handle_ldst, memory_access}

module _ (key hva : ℕ) where
  Core-if :
      (b : Bool) (p q : Processor)
      → Core key hva p
      → Core key hva q
      → Core key hva (if b then p else q)
  Core-if true p q h k = h
  Core-if false p q h k = k

module _ (negative : ℕ) (mmap : Mmap) (memory : ℕ → ℕ) (fuel : ℕ) (key hva : ℕ) where
  raise-At :
      (p : Processor) (gva exp_type : ℕ)
      → Core key hva p
      → Holds (Core key hva) (raise p gva exp_type)
  unfolding raise
  raise-At p gva exp_type at =
      elim (Option-cases (perform_exception p.tlb.regs gva exp_type p.context)) [
        | inl none' ↦ rw none' tt
        | inr ((pc, regs), found) ↦ rw found at
      ]

  pub raise_and_fetch-At :
      (p : Processor) (exp_type : ℕ)
      → Core key hva p
      → Holds (Core key hva) (raise_and_fetch negative mmap memory fuel p exp_type)
  unfolding raise_and_fetch
  raise_and_fetch-At p exp_type at =
      and_then-Holds (Core key hva) (Core key hva) (raise p p.context.pc exp_type) _
        (raise-At p p.context.pc exp_type at)
        (λ p' h.
          fetch_next_block-At negative mmap memory fuel key hva
            (record p' { control_mark = control_from_end_of_block }) h)

  pub handle_wait-At :
      (p : Processor)
      → Core key hva p
      → Holds (Core key hva) (handle_wait negative mmap memory fuel p)
  unfolding handle_wait
  handle_wait-At p at =
      and_then-Holds (Core key hva) (Core key hva)
        (raise (set_pc p (add64 p.context.pc 4)) 0 exc_int) _
        (raise-At (set_pc p (add64 p.context.pc 4)) 0 exc_int at)
        (fetch_next_block-At negative mmap memory fuel key hva)

  handle_nmi-At : (p : Processor) → Core key hva p → Core key hva (handle_nmi p)
  unfolding handle_nmi
  handle_nmi-At p at = at

  set_timer_tick-At :
      (p : Processor) (now : ℕ) → Core key hva p → Core key hva (set_timer_tick p now)
  unfolding set_timer_tick
  set_timer_tick-At p now at = at

  pub handle_asid_change-At : (p : Processor) → Core key hva p → Core key hva (handle_asid_change p)
  unfolding handle_asid_change
  handle_asid_change-At p at = Core-if key hva _ (record p { addr_cache = _; asid = _ }) p at at

  go_on-At :
      (p : Processor) → Core key hva p → Holds (Core key hva) (go_on negative mmap memory fuel p)
  go_on-At p at =
      let p' = if p.nmi then handle_nmi p else p in
      let at' = Core-if key hva p.nmi (handle_nmi p) p (handle_nmi-At p at) at in
      Holds-if (Core key hva) (p.context.pc == 0) _ _ tt (
        Holds-if (Core key hva) (not (p'.context.pc == p'.block_start)) _ _
          (fetch_next_block-At negative mmap memory fuel key hva p' at') at')

  pub new_block-At :
      (p : Processor) (now : ℕ)
      → Core key hva p
      → Holds (Core key hva) (new_block negative mmap memory fuel p now)
  unfolding new_block execute_pending_interrupts
  new_block-At p now at =
      let late =
        not (p.last_intrpt_time == 0) && ltb (add64 p.last_intrpt_time 3_000_000_000) now in
      let p' = if late then set_timer_tick p now else p in
      let at' = Core-if key hva late (set_timer_tick p now) p (set_timer_tick-At p now at) at in
      and_then-Holds (Core key hva) (Core key hva) _ (go_on negative mmap memory fuel)
        (Holds-if (Core key hva) (is_interrupt_pending p'.tlb.regs) _ _
          (raise-At p' p'.context.pc exc_int at') at')
        go_on-At

  file_hva-At :
      (r : Regions) (old : ℕ) (gpa : Option ℕ)
      → At key hva r
      → Holds (λ a. At key hva a.1) (file_hva negative mmap r old gpa)
  file_hva-At r old none at = at
  file_hva-At r old (some gpa) at = gpa_to_hva-At negative mmap key hva r gpa at

  other_device-At :
      (io : IoManager) (r : Regions) (gva : ℕ) (a : Bool × ℕ)
      → At key hva r
      → Holds (λ a. At key hva a.2) (other_device negative mmap io r gva a)
  other_device-At io r gva (true, h) at = at
  other_device-At io r gva (false, h) at =
      and_then-Holds (λ a. At key hva a.1) (λ a. At key hva a.2)
        (file_hva negative mmap r h (gva_to_gpa_for_fileloading gva)) _
        (file_hva-At r h (gva_to_gpa_for_fileloading gva) at) (λ a k. k)

  io_gva_to_hva-At :
      (io : IoManager) (r : Regions) (gva : ℕ) (context : Context)
      → At key hva r
      → Holds (λ a. At key hva a.2) (io_gva_to_hva negative mmap io r gva context)
  unfolding io_gva_to_hva
  io_gva_to_hva-At io r gva context at =
      let P : ℕ × IoManager × Regions → Type 0 = λ a. At key hva a.2 in
      let sent : (x : Result IoManager) (h : ℕ)
          → Holds P (and_then x (λ io'. Result.ok (h, io', r))) =
        λ x h. and_then-Holds (λ io'. Unit) P x _ (Holds-all _ x (λ io'. tt)) (λ io' u. at) in
      Holds-if P (leb ciu_base_addr gva && ltb gva ciu_end_addr) _ _
        (sent (on_write io ciu_id gva context) _)
        (Holds-if P (leb uart0_base_addr gva && ltb gva uart1_end_addr) _ _
          (sent (update_message_box io uart_id gva context) _)
          (Holds-if P (leb vblk_base_addr gva && leb gva vblk_end_addr) _ _
            (sent (on_write io vblk_id gva context) _)
            (other_device-At io r gva (check_cache io.ioaddr_cache gva context) at)))

  memory_access-At :
      (a : Access) (x : Bool × ℕ × Processor)
      → Answered key hva x
      → Holds (λ b. Core key hva b.core) (memory_access negative mmap memory fuel a x)
  memory_access-At a (true, h, p) at = at
  memory_access-At a (false, h, p) at =
      Holds-if (λ b. Core key hva b.core) (h == 0) _ _ tt
        (and_then-Holds (Core key hva) (λ b. Core key hva b.core)
          (fetch_next_block negative mmap memory fuel (set_pc p h)) _
          (fetch_next_block-At negative mmap memory fuel key hva (set_pc p h) at) (λ p' k. k))

  pub handle_ldst-At :
      (a : Access) (addr : ℕ)
      → Core key hva a.core
      → Holds (λ b. Core key hva b.core) (handle_ldst negative mmap memory fuel a addr)
  unfolding handle_ldst
  handle_ldst-At a addr at =
      Holds-if (λ b. Core key hva b.core) (is_io_addr addr) _ _
        (and_then-Holds (λ x. At key hva x.2) (λ b. Core key hva b.core)
          (io_gva_to_hva negative mmap a.io a.core.regions addr a.core.context) _
          (io_gva_to_hva-At a.io a.core.regions addr a.core.context at) (λ x k. k))
        (and_then-Holds (Answered key hva) (λ b. Core key hva b.core)
          (addr_translation negative mmap a.core addr) (memory_access negative mmap memory fuel a)
          (addr_translation-At negative mmap key hva a.core addr at) (memory_access-At a))

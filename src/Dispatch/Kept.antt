-- ===== src/Dispatch/Kept.antt =====
-- Processor_IPE.cpp: that no request moves guest memory.
use type_ii_hypervisor_code.Common.{
  ℕ, ◌≡◌, ◌≢◌, refl, subst, ==-eq-false, ◌==◌, Result, and_then, Holds, Holds-if, and_then-Holds,
}
use type_ii_hypervisor_code.MemoryMap.{Mmap, get_base_and_offset, translate_gpa_to_hva, gpa_to_hva}
use type_ii_hypervisor_code.Processor.{Processor}
use type_ii_hypervisor_code.Dispatch.Memory.{Core}
use type_ii_hypervisor_code.Word.{add64}
use type_ii_hypervisor_code.Exception.{scall, trap}
use type_ii_hypervisor_code.Processor.{brk, ri}
use type_ii_hypervisor_code.Processor.Requests.{
  raise_and_fetch, syscall, handle_br, handle_trap, handle_ri, tlb_write, tlb_write_i,
  tlb_probe_request, tlb_read_request,
}
use type_ii_hypervisor_code.Processor.Access.{handle_ldst}
use type_ii_hypervisor_code.Dispatch.{
  Machine, Outside, Turn, Run, handle_request, with_core, with_access,
}
use type_ii_hypervisor_code.Dispatch.Handlers.{
  raise_and_fetch-At, handle_wait-At, handle_asid_change-At, new_block-At, handle_ldst-At,
}

module _ (negative : ℕ) (mmap : Mmap) (memory : ℕ → ℕ) (fuel : ℕ) (start_of : ℕ → ℕ → ℕ)
    (key hva : ℕ) where
  abbrev pub Held : Machine → Type 0
  Held m = Core key hva m.access.core

  with_core-Held :
      (m : Machine) (x : Result Processor)
      → Holds (Core key hva) x
      → Holds Held (and_then x (with_core m))
  with_core-Held m x h = and_then-Holds (Core key hva) Held x (with_core m) h (λ p k. k)

  handle_request-At :
      (m : Machine) (o : Outside)
      → Held m
      → Holds Held (handle_request negative mmap memory fuel start_of m o)
  unfolding handle_request syscall handle_br handle_trap handle_ri tlb_probe_request
      tlb_read_request tlb_write_i tlb_write
  handle_request-At m o at =
      let p = m.access.core in
      let mark = p.control_mark in
      let raised : (exp_type : ℕ)
          → Holds Held
              (and_then (raise_and_fetch negative mmap memory fuel p exp_type) (with_core m)) =
        λ e. with_core-Held m _ (raise_and_fetch-At negative mmap memory fuel key hva p e at) in
      Holds-if Held (mark == 0) _ _
        (and_then-Holds (λ b. Core key hva b.core) Held
          (handle_ldst negative mmap memory fuel m.access m.tlb_data) (with_access m)
          (handle_ldst-At negative mmap memory fuel key hva m.access m.tlb_data at) (λ a k. k))
        (Holds-if Held (mark == 1) _ _
          (with_core-Held m _ (new_block-At negative mmap memory fuel key hva p o.now at))
          (Holds-if Held (mark == 2) _ _ (raised scall) (
            Holds-if Held (mark == 3) _ _ at (
              Holds-if Held (mark == 4) _ _ at (
                Holds-if Held (mark == 5) _ _ at (
                  Holds-if Held (mark == 6) _ _ at (
                    Holds-if Held (mark == 7) _ _
                      (handle_asid_change-At negative mmap memory fuel key hva p at)
                      (Holds-if Held (mark == 8) _ _
                        (with_core-Held m _ (handle_wait-At negative mmap memory fuel key hva p at))
                        (Holds-if Held (mark == 9) _ _ at (
                          Holds-if Held (mark == 10) _ _ at (
                            Holds-if Held (mark == 11) _ _ at (
                              Holds-if Held (mark == 12) _ _ (raised brk) (
                                Holds-if Held (mark == 13) _ _ (raised trap)
                                  (Holds-if Held (mark == 14) _ _ (raised ri) tt))))))))))))))

  handle_request-Held :
      (m m' : Machine) (o : Outside)
      → Held m
      → handle_request negative mmap memory fuel start_of m o ≡ Result.ok m'
      → Held m'
  handle_request-Held m m' o at e = subst (Holds Held) e (handle_request-At m o at)

  Turn-Held : {m m' : Machine} → Turn negative mmap memory fuel start_of m m' → Held m → Held m'
  Turn-Held (Turn.request m m' o e) at = handle_request-Held m m' o at e
  Turn-Held (Turn.emitted_code m m' same) at = rw same at

  Run-Held : {m m' : Machine} → Run negative mmap memory fuel start_of m m' → Held m → Held m'
  Run-Held Run.here at = at
  Run-Held (Run.next before step) at = Turn-Held step (Run-Held before at)

module _ (negative : ℕ) (mmap : Mmap) (memory : ℕ → ℕ) (fuel : ℕ) (start_of : ℕ → ℕ → ℕ) where
  -- A core alone does not move guest memory: after whatever requests of the emitted code and changes
  -- of the core by that code, with no other thread in the memory map meanwhile, an address whose region had host memory
  -- before still translates to the same host address, and nothing is allocated for it.
  pub Run-translates :
      (m m' : Machine) (addr : ℕ)
      → Run negative mmap memory fuel start_of m m'
      → let (key, offset) = get_base_and_offset addr in
        let base = (translate_gpa_to_hva m.access.core.regions key).hva in
        base ≢ 0
        → let r = m'.access.core.regions in
          gpa_to_hva negative mmap r addr ≡ Result.ok (add64 base offset, r)
  unfolding gpa_to_hva
  Run-translates m m' addr reach some_base =
      let key = (get_base_and_offset addr).0 in
      let base = (translate_gpa_to_hva m.access.core.regions key).hva in
      let held =
        Run-Held negative mmap memory fuel start_of key base reach
          (record { somewhere = some_base; there = refl }) in
      let other = ==-eq-false base 0 some_base in rw (held.there, other) refl

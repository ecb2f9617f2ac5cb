-- ===== src/Dispatch/Memory.antt =====
-- GPAtoHVATranslator_IPE.cpp and Processor_IPE.cpp: that a translation moves no guest memory.
use type_ii_hypervisor_code.Common.{
  ℕ, ◌≡◌, ◌≢◌, ap, ◌∙◌, arith, ◌==◌, Bool, true, false, Bool-cases, Option-cases, inl, inr,
  and_then, Holds, Holds-if, and_then-Holds, bit_and, sym,
}
use type_ii_hypervisor_code.MemoryMap.{
  Regions, Mmap, get_base_and_offset, translate_gpa_to_hva, alloc_mem_region, add_io_region,
  add_io_region_at, find_index, gpa_to_hva, io_size,
}
use type_ii_hypervisor_code.Mmu.{gva_to_gpa}
use type_ii_hypervisor_code.AddrCache.{check_cache}
use type_ii_hypervisor_code.Processor.{
  Processor, after_mmu, gva_to_hva, after_cache, addr_translation, remember, cvmseg_mask,
  cvmseg_base_addr,
}

-- The region of a key is at a host address, which is not 0.
pub record At (key hva : ℕ) (r : Regions) : Type 0 where
  pub somewhere : hva ≢ 0
  pub there : (translate_gpa_to_hva r key).hva ≡ hva

-- The guest memory of a core, and of the core in an answer.
abbrev pub Core : ℕ → ℕ → Processor → Type 0
Core key hva p = At key hva p.regions

abbrev pub Answered : ℕ → ℕ → Bool × ℕ × Processor → Type 0
Answered key hva a = At key hva a.2.regions

eq_of_== : (a b : ℕ) → (a == b) ≡ true → a ≡ b
eq_of_== a b h = ground arith

module _ (negative : ℕ) (mmap : Mmap) (key hva : ℕ) where
  add_io_region-At :
      (r : Regions) (key' : ℕ)
      → At key hva r
      → (translate_gpa_to_hva r key').hva ≡ 0
      → Holds (λ a. At key hva a.1) (add_io_region negative mmap r key')
  unfolding add_io_region add_io_region_at alloc_mem_region and_then translate_gpa_to_hva
  add_io_region-At r key' at free = elim (Option-cases (find_index negative key')) [
    | inl out ↦ rw out tt
    | inr ((idx, size), found) ↦ elim (Option-cases (mmap r.calls (io_size size))) [
      | inl failed ↦ rw (found, failed) tt
      | inr (dest, done) ↦
          rw (found, done)
            (record {
              somewhere = at.somewhere;
              there = elim (Bool-cases (key == key')) [
                | inl same ↦ absurd (
                    at.somewhere (
                      sym at.there
                      ∙ ap (λ k. (translate_gpa_to_hva r k).hva) (eq_of_== key key' same)
                      ∙ free))
                | inr other ↦ rw other at.there
              ];
            })
    ]
  ]

  pub gpa_to_hva-At :
      (r : Regions) (addr : ℕ)
      → At key hva r
      → Holds (λ a. At key hva a.1) (gpa_to_hva negative mmap r addr)
  unfolding gpa_to_hva
  gpa_to_hva-At r addr at =
      let key' = (get_base_and_offset addr).0 in
      elim (Bool-cases ((translate_gpa_to_hva r key').hva == 0)) [
        | inr known ↦ rw known at
        | inl fresh ↦ rw fresh (
            and_then-Holds (λ a. At key hva a.1) (λ a. At key hva a.1)
              (add_io_region negative mmap r key') _ (add_io_region-At r key' at (ground arith))
              (λ a h. h))
      ]

  gva_to_hva-At :
      (p : Processor) (gva : ℕ)
      → Core key hva p
      → Holds (Answered key hva) (gva_to_hva negative mmap p gva)
  unfolding gva_to_hva after_mmu
  gva_to_hva-At p gva at = elim (Option-cases (gva_to_gpa p.tlb gva p.context)) [
    | inl none' ↦ rw none' tt
    | inr (t, found) ↦ rw found (
        Holds-if (Answered key hva) t.ok _ _
          (and_then-Holds (λ a. At key hva a.1) (Answered key hva)
            (gpa_to_hva negative mmap p.regions t.address) _ (gpa_to_hva-At p.regions t.address at)
            (λ a h. h))
          at)
  ]

  remember-At :
      (gva : ℕ) (a : Bool × ℕ × Processor)
      → Answered key hva a
      → Holds (Answered key hva) (remember gva a)
  remember-At gva (true, h, p) at = at
  remember-At gva (false, h, p) at = at

  after_cache-At :
      (p : Processor) (gva : ℕ) (a : Bool × ℕ)
      → Core key hva p
      → Holds (Answered key hva) (after_cache negative mmap p gva a)
  unfolding after_cache
  after_cache-At p gva (true, h) at = at
  after_cache-At p gva (false, h) at =
      Holds-if (Answered key hva) (bit_and gva cvmseg_mask == cvmseg_base_addr) _ _ at (
        and_then-Holds (Answered key hva) (Answered key hva) (gva_to_hva negative mmap p gva) _
          (gva_to_hva-At p gva at) (remember-At gva))

  pub addr_translation-At :
      (p : Processor) (gva : ℕ)
      → Core key hva p
      → Holds (Answered key hva) (addr_translation negative mmap p gva)
  unfolding addr_translation
  addr_translation-At p gva at = after_cache-At p gva (check_cache p.addr_cache gva p.context) at

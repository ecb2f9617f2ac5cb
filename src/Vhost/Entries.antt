-- ===== src/Vhost/Entries.antt =====
-- Vhost.cpp: what a run of entries leaves in the table.
use type_ii_hypervisor_code.Common.{
  ℕ, zero, suc, ◌+◌, ◌-◌, ◌%◌, ◌^◌, ◌==◌, false, ◌<◌, ◌≤◌, ◌≡◌, ◌≢◌, refl, ◌∙◌, arith, Result,
  and_then,
}
use type_ii_hypervisor_code.Word.{has}
use type_ii_hypervisor_code.MemoryMap.{Regions, Mmap, gpa_to_hva}
use type_ii_hypervisor_code.Vhost.{
  VringDesc, GuestRings, MemoryRegion, Vhost, update_table_entry, vhost_memory_max_nregions,
  put_region, add_region,
}

-- The region of a descriptor with its host address.
abbrev pub region : VringDesc → ℕ → MemoryRegion
region d hva = record { guest_phys_addr = d.addr; userspace_addr = hva; memory_size = d.len }

unfoldable pub enter_region : Vhost → MemoryRegion → Vhost
unfolding put_region
enter_region v reg = record (put_region v (v.mem_table_idx % vhost_memory_max_nregions) reg) {
  mem_table_idx = v.mem_table_idx + 1;
}

-- n entries, f s and the ones behind it.
unfoldable pub enter_all : ℕ → ℕ → (ℕ → MemoryRegion) → Vhost → Vhost
unfolding enter_region
enter_all zero s f v = v
enter_all (suc n) s f v = enter_all n (s + 1) f (enter_region v (f s))

pub enter_all-count :
    (n s : ℕ) (f : ℕ → MemoryRegion) (v : Vhost)
    → (enter_all n s f v).mem_table_idx ≡ v.mem_table_idx + n
unfolding enter_all enter_region
enter_all-count zero s f v = omega arith
enter_all-count (suc n) s f v = omega (arith, enter_all-count n (s + 1) f (enter_region v (f s)))

pub enter_all-is_net :
    (n s : ℕ) (f : ℕ → MemoryRegion) (v : Vhost) → (enter_all n s f v).is_net ≡ v.is_net
unfolding enter_all enter_region put_region
enter_all-is_net zero s f v = refl
enter_all-is_net (suc n) s f v = enter_all-is_net n (s + 1) f (enter_region v (f s))

-- A slot that no entry takes is as it was.
enter_all-other :
    (n s : ℕ) (f : ℕ → MemoryRegion) (v : Vhost) (j : ℕ)
    → ((m : ℕ) → m < n → (v.mem_table_idx + m) % 64 ≢ j)
    → (enter_all n s f v).regions j ≡ v.regions j
unfolding enter_all enter_region put_region
enter_all-other zero s f v j free = refl
enter_all-other (suc n) s f v j free =
    let first : (v.mem_table_idx + 0) % 64 ≢ j = free 0 (omega arith) in
    enter_all-other n (s + 1) f (enter_region v (f s)) j
      (λ m h e. free (suc m) (omega arith) (omega arith))
    ∙ ground arith

-- At most 64 entries stand in the slots from the first on, in order.
pub enter_all-region :
    (n s : ℕ) (f : ℕ → MemoryRegion) (v : Vhost) (m : ℕ)
    → n ≤ 64
    → m < n
    → (enter_all n s f v).regions ((v.mem_table_idx + m) % 64) ≡ f (s + m)
unfolding enter_all enter_region put_region
enter_all-region zero s f v m le h = elim h [ ]
enter_all-region (suc n) s f v zero le h =
    enter_all-other n (s + 1) f (enter_region v (f s)) ((v.mem_table_idx + 0) % 64)
      (λ m h e. ground arith)
    ∙ ground arith
enter_all-region (suc n) s f v (suc m) le h =
    let same : (v.mem_table_idx + suc m) % 64 ≡ (v.mem_table_idx + 1 + m) % 64 = omega arith in
    let next : s + suc m ≡ s + 1 + m = omega arith in
    rw (same, next)
      (enter_all-region n (s + 1) f (enter_region v (f s)) m (omega arith) (omega arith))

module _ (negative : ℕ) (mmap : Mmap) where
  -- A descriptor whose address the memory map knows, with room in the `int` that counts.
  pub add_region-known :
      (v : Vhost) (r : Regions) (d : VringDesc) (hva : ℕ)
      → gpa_to_hva negative mmap r d.addr ≡ Result.ok (hva, r)
      → v.mem_table_idx < 2 ^ 31 - 1
      → add_region negative mmap v r d ≡ Result.ok (hva, enter_region v (region d hva), r)
  unfolding add_region enter_region and_then
  add_region-known v r d hva known room =
      let counted : (v.mem_table_idx == 2 ^ 31 - 1) ≡ false = ground arith in
      rw (known, counted) refl

  pub update_table_entry-direct :
      {Vring : Type 0} (rings : GuestRings Vring) (v : Vhost) (r : Regions) (d : VringDesc)
      (hva : ℕ)
      → gpa_to_hva negative mmap r d.addr ≡ Result.ok (hva, r)
      → has d.flags rings.desc_f_indirect ≡ false
      → v.mem_table_idx < 2 ^ 31 - 1
      → update_table_entry negative mmap rings v r d ≡ Result.ok (enter_region v (region d hva), r)
  unfolding update_table_entry and_then
  update_table_entry-direct rings v r d hva known direct room =
      rw (add_region-known v r d hva known room, direct) refl

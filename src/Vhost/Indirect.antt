-- ===== src/Vhost/Indirect.antt =====
-- Vhost.cpp: which descriptors of an indirect table are entered.
use native.Mathlib.Nat.{pow-le-pow_right, pow-suc, mul-div_cancel}
use type_ii_hypervisor_code.Common.{
  ℕ, zero, suc, ◌+◌, ◌-◌, ◌*◌, ◌%◌, ◌^◌, ◌<◌, ◌≤◌, ◌≡◌, refl, ap, sym, ◌∙◌, ltb, arith, true, false,
  Result, and_then,
}
use type_ii_hypervisor_code.Word.{add64, has}
use type_ii_hypervisor_code.MemoryMap.{Regions, Mmap, gpa_to_hva}
use type_ii_hypervisor_code.Vhost.{
  VringDesc, GuestRings, MemoryRegion, Vhost, next_desc, desc_count, indirect_loop,
  update_table_indirect,
}
use type_ii_hypervisor_code.Vhost.Entries.{
  region, enter_region, enter_all, enter_all-count, enter_all-region, add_region-known,
}

module _ {Vring : Type 0} (negative : ℕ) (mmap : Mmap) (rings : GuestRings Vring) (r : Regions)
    (table n : ℕ) (desc : ℕ → VringDesc) (hva : ℕ → ℕ)
    (placed : (k : ℕ) → k < 2 ^ n → rings.load_desc (add64 table (k * rings.desc_size)) ≡ desc k)
    (known : (k : ℕ) → k < 2 ^ n → gpa_to_hva negative mmap r (desc k).addr ≡ Result.ok (hva k, r))
    (direct : (k : ℕ) → k < 2 ^ n → has (desc k).flags rings.desc_f_indirect ≡ false)
    (chained : (k : ℕ) → k < 2 ^ n → has (desc k).flags rings.desc_f_next ≡ true)
    (ascending : (k : ℕ) → k < 2 ^ n → (desc k).next ≡ k + 1) where
  -- Counted from 0, the m-th descriptor that is entered is the one at 2 ^ m - 1.
  loop_doubles :
      (left m e i : ℕ) (v : Vhost)
      → e + i + 1 ≡ 2 ^ m
      → m + left ≤ n
      → v.mem_table_idx + left < 2 ^ 31
      → indirect_loop negative mmap rings left v r (add64 table (e * rings.desc_size)) i
        ≡ Result.ok (enter_all left m (λ j. region (desc (2 ^ j - 1)) (hva (2 ^ j - 1))) v, r)
  unfolding indirect_loop enter_all enter_region next_desc and_then
  loop_doubles zero m e i v at le room = refl
  loop_doubles (suc left) m e i v at le room =
      let k = e + i in
      let lt : m ≤ n = omega arith in
      let h : k < 2 ^ n = omega (arith, pow-le-pow_right {n = 2} (omega arith) lt) in
      let one : m + 1 ≡ suc m = omega arith in
      let twice : 2 ^ (m + 1) ≡ 2 ^ m * 2 = rw one (pow-suc 2 m) in
      let pos : k ≡ 2 ^ m - 1 = omega arith in
      let here : add64 (add64 table (e * rings.desc_size)) (i * rings.desc_size)
          ≡ add64 table (k * rings.desc_size) =
        grind arith in
      rw
        (
          here,
          placed k h,
          add_region-known negative mmap v r (desc k) (hva k) (known k h) (omega arith),
          direct k h,
          chained k h,
          ascending k h,
        )
        (ap
            (λ a.
              indirect_loop negative mmap rings left (enter_region v (region (desc k) (hva k))) r a
                (k + 1))
            here
          ∙ loop_doubles left (m + 1) k (k + 1) (enter_region v (region (desc k) (hva k)))
              (omega arith) (omega arith) (omega arith)
          ∙ rw pos refl)

  -- An indirect table of n descriptors, n at most 15. If the 2 ^ n descriptors from its start on are
  -- chained each to the next, none of them indirect and all of them in known memory, and the number of the
  -- regions entered so far and these fits an `int`, then n regions
  -- are entered, and the m-th of them, counted from 0, is that of the descriptor at 2 ^ m - 1: the
  -- third is that of descriptor 3, the fourth that of descriptor 7.
  pub update_table_indirect-doubles :
      (v : Vhost)
      → n ≤ 15
      → v.mem_table_idx + n < 2 ^ 31
      → 0 < rings.desc_size
      → n * rings.desc_size < 2 ^ 31
      → table < 2 ^ 64
      → (v' : Vhost) × (update_table_indirect negative mmap rings v r table (n * rings.desc_size)
          ≡ Result.ok (v', r))
        × (v'.mem_table_idx ≡ v.mem_table_idx + n)
        × ((m : ℕ)
            → m < n
            → v'.regions ((v.mem_table_idx + m) % 64) ≡ region (desc (2 ^ m - 1)) (hva (2 ^ m - 1)))
  unfolding update_table_indirect desc_count
  update_table_indirect-doubles v le room pos small in_range =
      let f : ℕ → MemoryRegion = λ j. region (desc (2 ^ j - 1)) (hva (2 ^ j - 1)) in
      let int : ltb (n * rings.desc_size) (2 ^ 31) ≡ true = ground arith in
      let number : desc_count rings (n * rings.desc_size) ≡ n =
        rw (int, mul-div_cancel n {n = rings.desc_size} pos) (omega arith) in
      let start : add64 table (0 * rings.desc_size) ≡ table = omega arith in
      (
        enter_all n 0 f v,
        (rw number (
            ap (λ a. indirect_loop negative mmap rings n v r a 0) (sym start)
            ∙ loop_doubles n 0 0 0 v (omega arith) (omega arith) room)),
        enter_all-count n 0 f v,
        λ m h.
            let at : 0 + m ≡ m = omega arith in
            rw at at (enter_all-region n 0 f v m (omega arith) h),
      )

-- ===== src/MemoryMap/Ram.antt =====
-- `alloc_DRAM`: the guest's memory.
use type_ii_hypervisor_code.Common.{
  and_then-exited, Result, and_then, ℕ, zero, suc, ◌+◌, ◌*◌, ◌-◌, ◌^◌, ◌%◌, ◌/◌, ◌<◌, ◌≤◌, ◌≡◌, ◌≢◌,
  refl, ◌∙◌, Bool-cases, Option-cases, inl, inr, arith, ◌==◌, none, some, ==_refl, ==-eq-false, ltb,
}
use type_ii_hypervisor_code.Word.{u32}
use type_ii_hypervisor_code.MemoryMap.Sections.{init_map_array, max_section_size}
use type_ii_hypervisor_code.MemoryMap.{
  MapVal, Regions, Mmap, alloc_mem_region, add_mem_region, set_val, dr2_loop, alloc_sections,
  alloc_dram, at_most, get_base_and_offset, section_at, section_size,
}
use type_ii_hypervisor_code.MemoryMap.Keys.{get_base_and_offset-eq}

-- `mmap` refuses a length of 0 and grants every other.
pub record Grants (mmap : Mmap) : Type 0 where
  pub refuses : (n : ℕ) → mmap n 0 ≡ none
  pub grants : (n size : ℕ) → size ≢ 0 → (dest : ℕ) × (mmap n size ≡ some dest)

-- What is added.
abbrev Added : Mmap → Regions → ℕ → ℕ → Type 0
Added mmap r size key =
    (v : MapVal) × (v.size ≡ u32 size)
    × (add_mem_region mmap r size key
        ≡ Result.ok (set_val (record r { calls = suc r.calls }) key v))

add_mem_region-Added :
    (mmap : Mmap) (r : Regions) (size key : ℕ) → Grants mmap → size ≢ 0 → Added mmap r size key
unfolding add_mem_region alloc_mem_region and_then
add_mem_region-Added mmap r size key g some_size =
    let (dest, e) = g.grants r.calls size some_size in
    (record { hva = dest; size = u32 size; map_idx = 2 }, refl, rw e)

-- The regions after the loop over DR2.
record Filled (r r' : Regions) (left offset : ℕ) : Type 0 where
  below : (j : ℕ) → j < 0x2000_0000 + offset → r'.gpa_map j ≡ r.gpa_map j
  chunk :
      (k : ℕ)
      → k * 2 ^ 28 < left
      → (v : MapVal) × (r'.gpa_map (0x2000_0000 + offset + k * 2 ^ 28) ≡ some v)
        × (v.size ≡ at_most (2 ^ 28) (left - k * 2 ^ 28))

-- One round, and the rounds behind it.
Filled-round :
    (r r' : Regions) (left offset calls : ℕ) (v : MapVal)
    → left ≢ 0
    → let sec_size = at_most (2 ^ 28) left in
      v.size ≡ u32 sec_size
      → Filled
          (set_val (record r { calls = calls }) (0x2000_0000 + offset) v)
          r'
          (left - sec_size)
          (offset + sec_size)
      → Filled r r' left offset
Filled-round r r' left offset calls v more size filled = record {
  below = λ j h. filled.below j (ground arith) ∙ ground arith;
  chunk = chunk;
}
  where
    chunk :
        (k : ℕ)
        → k * 2 ^ 28 < left
        → (w : MapVal) × (r'.gpa_map (0x2000_0000 + offset + k * 2 ^ 28) ≡ some w)
          × (w.size ≡ at_most (2 ^ 28) (left - k * 2 ^ 28))
    chunk zero h =
        let here : 0x2000_0000 + offset + 0 * 2 ^ 28 ≡ 0x2000_0000 + offset = omega arith in
        (
          v,
          rw here (filled.below (0x2000_0000 + offset) (ground arith) ∙ rw ==_refl),
          ground (arith, size),
        )
    chunk (suc k) h =
        let full : at_most (2 ^ 28) left ≡ 2 ^ 28 = ground arith in
        let (w, e, s) = filled.chunk k (ground arith) in
        let key : 0x2000_0000 + (offset + at_most (2 ^ 28) left) + k * 2 ^ 28
            ≡ 0x2000_0000 + offset + suc k * 2 ^ 28 =
          omega (arith, full) in
        let rest : left - at_most (2 ^ 28) left - k * 2 ^ 28 ≡ left - suc k * 2 ^ 28 =
          omega (arith, full) in
        (w, rw key at e, rw rest at s)

dr2_loop-step :
    (fuel : ℕ) (mmap : Mmap) (r r₁ : Regions) (left offset : ℕ)
    → left ≢ 0
    → add_mem_region mmap r (at_most (2 ^ 28) left) (0x2000_0000 + offset) ≡ Result.ok r₁
    → dr2_loop (suc fuel) mmap r left offset
      ≡ dr2_loop fuel mmap r₁ (left - at_most (2 ^ 28) left) (offset + at_most (2 ^ 28) left)
unfolding dr2_loop and_then section_at init_map_array
dr2_loop-step fuel mmap r r₁ left offset more added =
    rw (==-eq-false left 0 more) (elim (Bool-cases (ltb max_section_size left)) [
      | inl long ↦
          let e : at_most (2 ^ 28) left ≡ 2 ^ 28 = ground arith in rw (long, e, rw e at added)
      | inr short ↦
          let e : at_most (2 ^ 28) left ≡ left = ground arith in rw (short, e, rw e at added)
    ])

dr2_loop-Filled :
    (fuel : ℕ) (mmap : Mmap) (r : Regions) (left offset : ℕ)
    → Grants mmap
    → left ≤ fuel
    → (r' : Regions) × (dr2_loop fuel mmap r left offset ≡ Result.ok r') × Filled r r' left offset
unfolding dr2_loop and_then section_at init_map_array
dr2_loop-Filled zero mmap r left offset g enough =
    (r, refl, record { below = λ j h. refl; chunk = λ k h. absurd (omega arith) })
dr2_loop-Filled (suc fuel) mmap r left offset g enough = elim (Bool-cases (left == 0)) [
  | inl empty ↦ (r, rw empty, record { below = λ j h. refl; chunk = λ k h. absurd (ground arith) })
  | inr more ↦
      let sec_size = at_most (2 ^ 28) left in
      let size_bounds : (sec_size ≢ 0) × (sec_size ≤ left) × (sec_size ≤ 2 ^ 28) = ground arith in
      let (v, size, added) =
        add_mem_region-Added mmap r sec_size (0x2000_0000 + offset) g size_bounds.0 in
      let r₁ = set_val (record r { calls = suc r.calls }) (0x2000_0000 + offset) v in
      let (r', done, filled) =
        dr2_loop-Filled fuel mmap r₁ (left - sec_size) (offset + sec_size) g
          (omega (arith, size_bounds)) in
      (
        r',
        dr2_loop-step fuel mmap r r₁ left offset (ground arith) added ∙ done,
        Filled-round r r' left offset (suc r.calls) v (ground arith) size filled,
      )
]

add_mem_region-known :
    (mmap : Mmap) (r : Regions) (size key : ℕ)
    → (add_mem_region mmap r size key ≢ Result.undefined)
      × (add_mem_region mmap r size key ≢ Result.waiting)
unfolding add_mem_region alloc_mem_region and_then
add_mem_region-known mmap r size key = elim (Option-cases (mmap r.calls size)) [
  | inl none_given ↦ rw none_given ((λ e. ground arith), λ e. ground arith)
  | inr (dest, given) ↦ rw given ((λ e. ground arith), λ e. ground arith)
]

add_mem_region-refused :
    (mmap : Mmap) (r : Regions) (key : ℕ)
    → Grants mmap
    → add_mem_region mmap r 0 key ≡ Result.exited
unfolding add_mem_region alloc_mem_region and_then
add_mem_region-refused mmap r key g = rw (g.refuses r.calls)

-- When the guest has 256 MB or less, the second section is given no byte, `mmap` refuses it and the
-- process exits.
pub alloc_dram-exits :
    (negative : ℕ) (mmap : Mmap) (r : Regions) (size : ℕ)
    → Grants mmap
    → size ≤ 2 ^ 28
    → alloc_dram negative mmap r size ≡ Result.exited
unfolding alloc_dram alloc_sections and_then section_at init_map_array section_size
alloc_dram-exits negative mmap r size g small =
    let s₀ : at_most (2 ^ 28) size ≡ size = ground arith in
    let s₁ : at_most (2 ^ 28) (size - size) ≡ 0 = ground arith in
    rw (s₀, s₁)
      (let (known, ends) = add_mem_region-known mmap r (2 ^ 28) 0x1000_0000 in
        and_then-exited _ _ known ends (λ r₁.
          let (known₁, ends₁) = add_mem_region-known mmap r₁ size 0 in
          and_then-exited _ _ known₁ ends₁
            (λ r₂. rw (add_mem_region-refused mmap r₂ 0x4_1000_0000 g))))

-- When `mmap` refuses a length of 0 and grants every other, and the guest has more than 256 MB and
-- less than 2 ^ 48 bytes, the allocation succeeds, and every byte x of the memory beyond the first
-- 512 MB has, under the key of its address 2 ^ 29 + x, a region that is larger than its offset.
pub alloc_dram-covers :
    (negative : ℕ) (mmap : Mmap) (r : Regions) (size x : ℕ)
    → Grants mmap
    → 2 ^ 28 < size
    → size < 2 ^ 48
    → x + 2 ^ 29 < size
    → let (key, offset) = get_base_and_offset (2 ^ 29 + x) in
      (r' : Regions) × (v : MapVal) × (alloc_dram negative mmap r size ≡ Result.ok r')
      × (r'.gpa_map key ≡ some v)
      × (offset < v.size)
unfolding alloc_dram alloc_sections and_then section_at init_map_array section_size
alloc_dram-covers negative mmap r size x g large bound h =
    let s₁ = at_most (2 ^ 28) (size - 2 ^ 28) in
    let left = size - 2 ^ 28 - s₁ in
    let (v₁, _, e₁) = add_mem_region-Added mmap r (2 ^ 28) 0x1000_0000 g (omega arith) in
    let r₁ = set_val (record r { calls = suc r.calls }) 0x1000_0000 v₁ in
    let (v₂, _, e₂) = add_mem_region-Added mmap r₁ (2 ^ 28) 0 g (omega arith) in
    let r₂ = set_val (record r₁ { calls = suc r₁.calls }) 0 v₂ in
    let (v₃, _, e₃) = add_mem_region-Added mmap r₂ s₁ 0x4_1000_0000 g (ground arith) in
    let r₃ = set_val (record r₂ { calls = suc r₂.calls }) 0x4_1000_0000 v₃ in
    let (r', done, filled) = dr2_loop-Filled left mmap r₃ left 0 g (omega arith) in
    let (v, found, room) = filled.chunk (x / 2 ^ 28) (ground arith) in
    let s₀ : at_most (2 ^ 28) size ≡ 2 ^ 28 = ground arith in
    let key : get_base_and_offset (2 ^ 29 + x) ≡ (2 ^ 29 + 0 + x / 2 ^ 28 * 2 ^ 28, x % 2 ^ 28) =
      get_base_and_offset-eq (2 ^ 29 + x) (omega arith) ∙ ground arith in
    (r', v, rw (s₀, e₁, e₂, e₃) done, rw key found, rw key (ground (arith, room)))

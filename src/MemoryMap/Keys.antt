-- ===== src/MemoryMap/Keys.antt =====
-- Keys and offsets, and that a translation is kept.
use type_ii_hypervisor_code.Common.{
  Result-cases, Result, and_then, ℕ, ◌+◌, ◌*◌, ◌-◌, ◌^◌, ◌%◌, ◌/◌, ◌<◌, ◌≡◌, ◌≢◌, ◌∙◌, Bool-cases,
  Option-cases, inl, inr, arith, ◌==◌, if◌then◌else◌, Option, none, some,
}
use type_ii_hypervisor_code.Word.{add64}
use type_ii_hypervisor_code.Word.Masks.{and-low_mask, and-high_mask}
use type_ii_hypervisor_code.MemoryMap.{
  Regions, Mmap, get_base_and_offset, translate_gpa_to_hva, alloc_mem_region, add_io_region,
  add_io_region_at, find_index, gpa_to_hva, io_size,
}

-- The regions are 2 ^ 27 bytes for the addresses of devices, 2 ^ 28 for all others.
abbrev pub region_bits : ℕ → ℕ
region_bits gpa = if gpa / 2 ^ 48 == 1 then 2 ^ 27 else 2 ^ 28

pub get_base_and_offset-eq :
    (gpa : ℕ)
    → gpa < 2 ^ 64
    → get_base_and_offset gpa ≡ (gpa / region_bits gpa * region_bits gpa, gpa % region_bits gpa)
unfolding get_base_and_offset
get_base_and_offset-eq gpa h =
    rw
      (
        and-low_mask 27 gpa,
        and-low_mask 28 gpa,
        and-high_mask 64 27 gpa (omega arith) h,
        and-high_mask 64 28 gpa (omega arith) h,
      )
      (ground arith)

-- The base and the offset of an address add up to it, the offset is inside the region, and the base
-- is the base of itself with the offset 0.
pub get_base_and_offset_lem :
    (gpa : ℕ)
    → gpa < 2 ^ 64
    → let (base, offset) = get_base_and_offset gpa in
      (base + offset ≡ gpa) × (offset < region_bits gpa) × (get_base_and_offset base ≡ (base, 0))
get_base_and_offset_lem gpa h = rw (get_base_and_offset-eq gpa h) (
  ground arith,
  ground arith,
  get_base_and_offset-eq (gpa / region_bits gpa * region_bits gpa) (ground arith) ∙ ground arith,
)

-- `mmap` never gives the address 0.
abbrev pub NeverNull : Mmap → Type 0
NeverNull mmap = (n size : ℕ) → mmap n size ≢ some 0

add_io_region_at-kept :
    (mmap : Mmap) (r : Regions) (key : ℕ) (found : Option (ℕ × ℕ)) (a : ℕ × Regions)
    → NeverNull mmap
    → add_io_region_at mmap r key found ≡ Result.ok a
    → ((translate_gpa_to_hva a.1 key).hva ≡ a.0) × (a.0 ≢ 0)
unfolding add_io_region_at alloc_mem_region and_then translate_gpa_to_hva
add_io_region_at-kept mmap r key none a never e = absurd (ground arith)
add_io_region_at-kept mmap r key (some (idx, size)) a never e =
    elim (Option-cases (mmap r.calls (io_size size))) [
      | inl failed ↦ absurd (ground arith)
      | inr (dest, done) ↦ let e' = rw done at e in ground (arith, e', never r.calls (io_size size))
    ]

-- A translation that has succeeded leaves an entry for the key: the address it gave is the entry's
-- plus the offset.
gpa_to_hva-entry :
    (negative : ℕ) (mmap : Mmap) (r r' : Regions) (addr h : ℕ)
    → NeverNull mmap
    → gpa_to_hva negative mmap r addr ≡ Result.ok (h, r')
    → let (key, offset) = get_base_and_offset addr in
      let base = (translate_gpa_to_hva r' key).hva in (base ≢ 0) × (h ≡ add64 base offset)
unfolding gpa_to_hva and_then add_io_region
gpa_to_hva-entry negative mmap r r' addr h never e =
    let key = (get_base_and_offset addr).0 in
    elim (Bool-cases ((translate_gpa_to_hva r key).hva == 0)) [
      | inr known ↦ let e' = rw known at e in ground (arith, e')
      | inl fresh ↦
          let e' = rw fresh at e in
          elim (Result-cases (add_io_region_at mmap r key (find_index negative key))) [
            | inl (a, done) ↦
                let (place, some_place) =
                  add_io_region_at-kept mmap r key (find_index negative key) a never done in
                let e'' = rw done at e' in ground (arith, e'', place, some_place)
            | inr (inl stopped) ↦ let e'' = rw stopped at e' in absurd (ground arith)
            | inr (inr (inl lost)) ↦ let e'' = rw lost at e' in absurd (ground arith)
            | inr (inr (inr stuck)) ↦ let e'' = rw stuck at e' in absurd (ground arith)
          ]
    ]

-- When `mmap` never gives the address 0, and for addresses of 64 bits, a translation that has
-- succeeded is kept: every address with the same base then translates at the same distance, and
-- nothing more is allocated.
gpa_to_hva_again :
    (negative : ℕ) (mmap : Mmap) (r r' : Regions) (addr addr' h : ℕ)
    → NeverNull mmap
    → addr < 2 ^ 64
    → addr' < 2 ^ 64
    → (get_base_and_offset addr').0 ≡ (get_base_and_offset addr).0
    → gpa_to_hva negative mmap r addr ≡ Result.ok (h, r')
    → gpa_to_hva negative mmap r' addr' ≡ Result.ok ((h + 2 ^ 64 + addr' - addr) % 2 ^ 64, r')
unfolding gpa_to_hva
gpa_to_hva_again negative mmap r r' addr addr' h never lt lt' same e =
    let (some_base, place) = gpa_to_hva-entry negative mmap r r' addr h never e in
    let (sum, small, _) = get_base_and_offset_lem addr lt in
    let (sum', small', _) = get_base_and_offset_lem addr' lt' in
    ground (arith, place, some_base, sum, sum')

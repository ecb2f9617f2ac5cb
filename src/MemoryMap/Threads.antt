-- ===== src/MemoryMap/Threads.antt =====
-- GPAtoHVATranslator_IPE.cpp: the memory map as the threads of all cores and devices share it, with no
-- lock. The look-up of `GPA_to_HVA`, the allocation of `add_IO_Region` and its insertion are steps of
-- their own, in any order among the threads. Each of them is taken as one step: what `std::map` does
-- when a look-up meets an insertion is not modelled.
use type_ii_hypervisor_code.Common.{
  ℕ, ◌≡◌, ◌≢◌, refl, sym, ◌∙◌, ap, Bool, false, ◌==◌, ==-eq-false, ==_refl, if◌then◌else◌,
  Bool-cases, inl, inr, arith, Option, none, some, Option-cases, Result, and_then,
}
use type_ii_hypervisor_code.Word.{u32, add64}
use type_ii_hypervisor_code.MemoryMap.{
  MapVal, Regions, Mmap, set_val, get_base_and_offset, translate_gpa_to_hva, alloc_mem_region,
  find_index, io_size, add_io_region, add_io_region_at, gpa_to_hva,
}

-- Where a thread is: outside `GPA_to_HVA`; behind a look-up that found no base, with the key and the
-- offset; or behind the allocation, with the entry that it is about to insert.
pub data Thread : Type 0 where
  outside : Thread
  missed : ℕ → ℕ → Thread
  allocated : ℕ → ℕ → MapVal → Thread
  returned : ℕ → Thread

pub record Shared : Type 0 where
  pub regions : Regions
  pub thread : ℕ → Thread

abbrev pub moved : Shared → ℕ → Regions → Thread → Shared
moved s i r t = record { regions = r; thread = λ k. if k == i then t else s.thread k }

-- `GPA_to_HVA` up to the test of the base, and, when there is one, to its end.
unfoldable pub look_up : Regions → ℕ → Thread
look_up r addr =
    let (key, offset) = get_base_and_offset addr in
    let base = (translate_gpa_to_hva r key).hva in
    if base == 0 then Thread.missed key offset else Thread.returned (add64 base offset)

-- `add_IO_Region` up to the insertion.
abbrev pub entry_for : Mmap → Regions → Option (ℕ × ℕ) → Result (MapVal × Regions)
entry_for mmap r none = Result.undefined
entry_for mmap r (some (idx, size)) =
    and_then (alloc_mem_region mmap r (io_size size))
      (λ a. Result.ok (record { hva = a.0; size = u32 (io_size size); map_idx = u32 idx }, a.1))

unfoldable pub allocate : ℕ → Mmap → Regions → ℕ → Result (MapVal × Regions)
allocate negative mmap r key = entry_for mmap r (find_index negative key)

-- One step of one thread.
pub data Step (negative : ℕ) (mmap : Mmap) : Shared → Shared → Type 0 where
  calls :
      (s : Shared) (i addr : ℕ)
      → s.thread i ≡ Thread.outside
      → Step negative mmap s (moved s i s.regions (look_up s.regions addr))
  allocates :
      (s : Shared) (i key offset : ℕ) (val : MapVal) (r : Regions)
      → s.thread i ≡ Thread.missed key offset
      → allocate negative mmap s.regions key ≡ Result.ok (val, r)
      → Step negative mmap s (moved s i r (Thread.allocated key offset val))
  inserts :
      (s : Shared) (i key offset : ℕ) (val : MapVal)
      → s.thread i ≡ Thread.allocated key offset val
      → Step negative mmap s
          (moved s i (set_val s.regions key val) (Thread.returned (add64 val.hva offset)))
  leaves :
      (s : Shared) (i hva : ℕ)
      → s.thread i ≡ Thread.returned hva
      → Step negative mmap s (moved s i s.regions Thread.outside)

-- Any number of steps.
pub data Reach (negative : ℕ) (mmap : Mmap) (s : Shared) : Shared → Type 0 where
  here : Reach negative mmap s s
  next : {t u : Shared} → Reach negative mmap s t → Step negative mmap t u → Reach negative mmap s u

-- The thread is about to add a region for the key.
abbrev pub is_adding : ℕ → Thread → Bool
is_adding key (Thread.missed k offset) = k == key
is_adding key (Thread.allocated k offset val) = k == key
is_adding key _ = false

-- The region of a key is at a host address, and no thread is about to add it.
pub record Settled (key base : ℕ) (s : Shared) : Type 0 where
  pub somewhere : base ≢ 0
  pub there : (translate_gpa_to_hva s.regions key).hva ≡ base
  pub quiet : (i : ℕ) → is_adding key (s.thread i) ≡ false

module _ (key base : ℕ) where
  moved-quiet :
      (s : Shared) (i : ℕ) (r : Regions) (t : Thread)
      → ((k : ℕ) → is_adding key (s.thread k) ≡ false)
      → is_adding key t ≡ false
      → (k : ℕ) → is_adding key ((moved s i r t).thread k) ≡ false
  moved-quiet s i r t quiet h k = elim (Bool-cases (k == i)) [
    | inl same ↦ rw same h
    | inr other ↦ rw other (quiet k)
  ]

  look_up-quiet :
      (r : Regions) (addr : ℕ)
      → base ≢ 0
      → (translate_gpa_to_hva r key).hva ≡ base
      → is_adding key (look_up r addr) ≡ false
  unfolding look_up
  look_up-quiet r addr somewhere there =
      let key' = (get_base_and_offset addr).0 in
      elim (Bool-cases ((translate_gpa_to_hva r key').hva == 0)) [
        | inl free ↦ rw free (
            ==-eq-false key' key (λ e. somewhere (
              sym there ∙ ap (λ k. (translate_gpa_to_hva r k).hva) (sym e) ∙ ground (arith, free))))
        | inr known ↦ rw known refl
      ]

  allocate-regions :
      (negative : ℕ) (mmap : Mmap) (r r' : Regions) (key' : ℕ) (val : MapVal)
      → allocate negative mmap r key' ≡ Result.ok (val, r')
      → (translate_gpa_to_hva r' key).hva ≡ (translate_gpa_to_hva r key).hva
  unfolding allocate alloc_mem_region and_then translate_gpa_to_hva
  allocate-regions negative mmap r r' key' val e = elim (Option-cases (find_index negative key')) [
    | inl out ↦ let e' = rw out at e in absurd (ground arith)
    | inr ((idx, size), found) ↦ elim (Option-cases (mmap r.calls (io_size size))) [
      | inl failed ↦ let e' = rw (found, failed) at e in absurd (ground arith)
      | inr (dest, done) ↦ let e' = rw (found, done) at e in ground (arith, e')
    ]
  ]

  Step-Settled :
      {negative : ℕ} {mmap : Mmap} {s t : Shared}
      → Step negative mmap s t
      → Settled key base s
      → Settled key base t
  unfolding translate_gpa_to_hva
  Step-Settled (Step.calls s i addr at) h = record {
    somewhere = h.somewhere;
    there = h.there;
    quiet =
        moved-quiet s i s.regions (look_up s.regions addr) h.quiet
          (look_up-quiet s.regions addr h.somewhere h.there);
  }
  Step-Settled {negative} {mmap} (Step.allocates s i key' offset val r at e) h = record {
    somewhere = h.somewhere;
    there = allocate-regions negative mmap s.regions r key' val e ∙ h.there;
    quiet =
        moved-quiet s i r (Thread.allocated key' offset val) h.quiet
          (ap (is_adding key) (sym at) ∙ h.quiet i);
  }
  Step-Settled (Step.inserts s i key' offset val at) h =
      let other : (key' == key) ≡ false = ap (is_adding key) (sym at) ∙ h.quiet i in
      let away : (key == key') ≡ false = ground (arith, other) in
      record {
        somewhere = h.somewhere;
        there = rw away h.there;
        quiet =
            moved-quiet s i (set_val s.regions key' val) (Thread.returned (add64 val.hva offset))
              h.quiet refl;
      }
  Step-Settled (Step.leaves s i hva at) h = record {
    somewhere = h.somewhere;
    there = h.there;
    quiet = moved-quiet s i s.regions Thread.outside h.quiet refl;
  }

  Reach-Settled :
      {negative : ℕ} {mmap : Mmap} {s t : Shared}
      → Reach negative mmap s t
      → Settled key base s
      → Settled key base t
  Reach-Settled Reach.here h = h
  Reach-Settled (Reach.next before step) h = Step-Settled step (Reach-Settled before h)

-- However the threads that share the memory map take turns: once the region of an address has host
-- memory and no thread is about to add that region, in every state they come to the address
-- translates to the same host address, with nothing allocated for it, and a thread that looks it up
-- returns that host address.
pub Reach-settles :
    (negative : ℕ) (mmap : Mmap) (s t : Shared) (addr : ℕ)
    → let (key, offset) = get_base_and_offset addr in
      let base = (translate_gpa_to_hva s.regions key).hva in
      base ≢ 0
      → ((i : ℕ) → is_adding key (s.thread i) ≡ false)
      → Reach negative mmap s t
      → (gpa_to_hva negative mmap t.regions addr ≡ Result.ok (add64 base offset, t.regions))
        × (look_up t.regions addr ≡ Thread.returned (add64 base offset))
unfolding gpa_to_hva look_up
Reach-settles negative mmap s t addr somewhere quiet reach =
    let key = (get_base_and_offset addr).0 in
    let base = (translate_gpa_to_hva s.regions key).hva in
    let settled =
      Reach-Settled key base reach
        (record { somewhere = somewhere; there = refl; quiet = quiet }) in
    let known = ==-eq-false base 0 somewhere in rw (settled.there, known) (refl, refl)

-- A thread that no other one interrupts does what `gpa_to_hva` does.
gpa_to_hva-alone :
    (negative : ℕ) (mmap : Mmap) (r : Regions) (addr : ℕ)
    → gpa_to_hva negative mmap r addr ≡ elim (look_up r addr) [
      | outside ↦ Result.undefined
      | missed key offset ↦
          and_then
            (allocate negative mmap r key)
            (λ a. Result.ok (add64 (a.0).hva offset, set_val a.1 key a.0))
      | allocated key offset val ↦ Result.undefined
      | returned hva ↦ Result.ok (hva, r)
    ]
unfolding gpa_to_hva look_up allocate add_io_region add_io_region_at alloc_mem_region and_then
gpa_to_hva-alone negative mmap r addr =
    let key = (get_base_and_offset addr).0 in
    elim (Bool-cases ((translate_gpa_to_hva r key).hva == 0)) [
      | inr known ↦ rw known refl
      | inl free ↦ elim (Option-cases (find_index negative key)) [
        | inl out ↦ rw (free, out) refl
        | inr ((idx, size), found) ↦ elim (Option-cases (mmap r.calls (io_size size))) [
          | inl failed ↦ rw (free, found, failed) refl
          | inr (dest, done) ↦ rw (free, found, done) refl
        ]
      ]
    ]

-- When two threads have both found no base for the same region, each can allocate one: there is an
-- order of their steps after which the first has returned an address in its own memory, while the
-- region has been moved to the memory of the second.
Reach-moves :
    (negative : ℕ) (mmap : Mmap) (s : Shared) (i j key offset offset' : ℕ) (val val' : MapVal)
    (r r' : Regions)
    → i ≢ j
    → s.thread i ≡ Thread.missed key offset
    → s.thread j ≡ Thread.missed key offset'
    → allocate negative mmap s.regions key ≡ Result.ok (val, r)
    → allocate negative mmap (set_val r key val) key ≡ Result.ok (val', r')
    → (t : Shared) × Reach negative mmap s t
      × (t.thread i ≡ Thread.returned (add64 val.hva offset))
      × ((translate_gpa_to_hva t.regions key).hva ≡ val'.hva)
unfolding translate_gpa_to_hva
Reach-moves negative mmap s i j key offset offset' val val' r r' apart first second e e' =
    let a = moved s i r (Thread.allocated key offset val) in
    let b = moved a i (set_val r key val) (Thread.returned (add64 val.hva offset)) in
    let c = moved b j r' (Thread.allocated key offset' val') in
    let d = moved c j (set_val r' key val') (Thread.returned (add64 val'.hva offset')) in
    let other : (i == j) ≡ false = ==-eq-false i j apart in
    let other' : (j == i) ≡ false = ==-eq-false j i (λ same. apart (sym same)) in
    let own = ==_refl i in
    let own' = ==_refl j in
    (
      d,
      Reach.next
          (Reach.next
            (Reach.next (Reach.next Reach.here (Step.allocates s i key offset val r first e))
              (Step.inserts a i key offset val (rw own refl)))
            (Step.allocates b j key offset' val' r' (rw other' second) e'))
          (Step.inserts c j key offset' val' (rw own' refl)),
      rw (other, own) refl,
      rw (==_refl key) refl,
    )

-- ===== src/Vhost/Rounds.antt =====
-- Vhost.cpp: the rounds over the requests of a block device come to an end, and the number of
-- regions that the kernel is told of stays in bounds.
use type_ii_hypervisor_code.Common.{
  ℕ, zero, suc, ◌+◌, ◌*◌, ◌%◌, ◌^◌, ◌<◌, ◌≤◌, ◌≡◌, refl, ◌==◌, leb, arith, true, false, Bool-cases,
  inl, inr, Option, some, none, Result, and_then, Holds, Holds-all, Holds-map, and_then-Holds,
  and_then_cong, Succeeds, and_then-Succeeds, Succeeds-map,
}
use type_ii_hypervisor_code.Word.{add64, has}
use type_ii_hypervisor_code.MemoryMap.{Regions, Mmap, gpa_to_hva}
use type_ii_hypervisor_code.Queue.{VirtQueue, inc_last_avail_idx}
use type_ii_hypervisor_code.Vhost.{VringDesc, GuestRings, Vhost, next_desc, update_table_entry}
use type_ii_hypervisor_code.Vhost.Entries.{region, enter_region, update_table_entry-direct}
use type_ii_hypervisor_code.Vhost.Walks.{
  Walk, chain_loop, head_of, blk_rounds, update_blk_table_from_queue,
}

-- The two ways on behind a descriptor.
pub after_next :
    {A : Type 0} (P : A → Type 0) (next : Option ℕ) (x : A) (f : ℕ → A)
    → P x
    → ((j : ℕ) → P (f j))
    → P (elim next [ none ↦ x | some j ↦ f j ])
after_next P none x f end on = end
after_next P (some j) x f end on = on j

module _ {Vring : Type 0} (negative : ℕ) (mmap : Mmap) (rings : GuestRings Vring) where
  -- A chain that comes to its end has used one descriptor at least.
  Shorter : ℕ → Walk → Type 0
  Shorter left w = w.complete ≡ true → w.left < left

  chain_loop-Shorter :
      (left entered : ℕ) (v : Vhost) (r : Regions) (q : VirtQueue Vring) (i : ℕ)
      → Holds (Shorter left) (chain_loop negative mmap rings left entered v r q i)
  unfolding chain_loop Shorter
  chain_loop-Shorter zero entered v r q i = λ h. ground arith
  chain_loop-Shorter (suc left) entered v r q i = elim (Bool-cases (leb q.num_desc i)) [
    | inl out ↦ rw out (λ h. ground arith)
    | inr inside ↦ rw inside (
        and_then-Holds (λ a. Unit) (Shorter (suc left))
          (update_table_entry negative mmap rings v r
            (rings.load_desc (add64 (rings.desc q.vring) (i * rings.desc_size))))
          _ (Holds-all _ _ (λ a. tt))
          (λ a h.
            after_next (Holds (Shorter (suc left)))
              (next_desc rings (rings.load_desc (add64 (rings.desc q.vring) (i * rings.desc_size))))
              _ _ (λ e. omega arith)
              (λ j.
                Holds-map (Shorter left) (Shorter (suc left)) _
                  (λ w shorter e. omega (arith, shorter e))
                  (chain_loop-Shorter left (entered + 1) a.0 a.1 q j))))
  ]

  rounds_agree :
      (a b left ret : ℕ) (v : Vhost) (r : Regions) (q : VirtQueue Vring)
      → left < a
      → left < b
      → blk_rounds negative mmap rings a left ret v r q
        ≡ blk_rounds negative mmap rings b left ret v r q
  unfolding blk_rounds Shorter
  rounds_agree zero b left ret v r q h k = elim h [ ]
  rounds_agree (suc a) zero left ret v r q h k = elim k [ ]
  rounds_agree (suc a) (suc b) left ret v r q h k =
      elim (Bool-cases (q.last_avail_idx == rings.avail_idx q.vring)) [
        | inl done ↦ rw done refl
        | inr more ↦ rw more (
            and_then_cong (λ i. Unit) (head_of rings q) _ _ (Holds-all _ _ (λ i. tt))
              (λ i u.
                and_then_cong (Shorter left) (chain_loop negative mmap rings left 0 v r q i) _ _
                  (chain_loop-Shorter left 0 v r q i)
                  (λ w shorter. elim (Bool-cases w.complete) [
                    | inl whole ↦ rw whole (
                        rounds_agree a b w.left (ret + 1) w.vhost w.memory (inc_last_avail_idx q)
                          (omega (arith, shorter whole)) (omega (arith, shorter whole)))
                    | inr stop ↦ rw stop refl
                  ])))
      ]

-- The descriptor of a queue at an index.
abbrev pub desc_of : {Vring : Type 0} → GuestRings Vring → VirtQueue Vring → ℕ → VringDesc
desc_of rings q i = rings.load_desc (add64 (rings.desc q.vring) (i * rings.desc_size))

module _ {Vring : Type 0} (negative : ℕ) (mmap : Mmap) (rings : GuestRings Vring) (r : Regions)
    (hva : ℕ → ℕ) where
  -- The descriptors of the queue are in known memory, and none of them is indirect.
  abbrev Plain : VirtQueue Vring → Type 0
  Plain q =
      ((i : ℕ)
        → i < q.num_desc
        → gpa_to_hva negative mmap r (desc_of rings q i).addr ≡ Result.ok (hva i, r))
      × ((i : ℕ) → i < q.num_desc → has (desc_of rings q i).flags rings.desc_f_indirect ≡ false)

  -- The memory is as it was, and the count of regions has room for the descriptors left.
  Walked : ℕ → Walk → Type 0
  Walked left w =
      (w.memory ≡ r)
      × (w.complete ≡ true → w.left < left)
      × (w.vhost.mem_table_idx + w.left < 2 ^ 31)

  chain_loop-returns :
      (left entered : ℕ) (v : Vhost) (q : VirtQueue Vring) (i : ℕ)
      → Plain q
      → v.mem_table_idx + left < 2 ^ 31
      → Succeeds (Walked left) (chain_loop negative mmap rings left entered v r q i)
  unfolding chain_loop Walked and_then enter_region
  chain_loop-returns zero entered v q i plain room = (refl, (λ h. ground arith), room)
  chain_loop-returns (suc left) entered v q i plain room = elim (Bool-cases (leb q.num_desc i)) [
    | inl out ↦ rw out (refl, (λ h. ground arith), room)
    | inr inside ↦
        let h : i < q.num_desc = ground arith in
        let d = desc_of rings q i in
        let entry =
          update_table_entry-direct negative mmap rings v r d (hva i) (plain.0 i h) (plain.1 i h)
            (omega arith) in
        rw (inside, entry)
          (after_next (Succeeds (Walked (suc left))) (next_desc rings d) _ _
            (refl, (λ e. omega arith), omega arith)
            (λ j.
              Succeeds-map (Walked left) (Walked (suc left)) _
                (λ w (same, shorter, fits). (same, (λ e. omega (arith, shorter e)), fits))
                (chain_loop-returns left (entered + 1) (enter_region v (region d (hva i))) q j plain
                  (omega arith))))
  ]

  blk_rounds-returns :
      (rounds left ret : ℕ) (v : Vhost) (r' : Regions) (q : VirtQueue Vring)
      → left < rounds
      → r' ≡ r
      → 0 < q.num_desc
      → Plain q
      → v.mem_table_idx + left < 2 ^ 31
      → Succeeds (λ u. u.ret ≤ ret + left) (blk_rounds negative mmap rings rounds left ret v r' q)
  unfolding blk_rounds head_of and_then inc_last_avail_idx Walked
  blk_rounds-returns zero left ret v r' q h same some_desc plain room = elim h [ ]
  blk_rounds-returns (suc rounds) left ret v r' q h same some_desc plain room =
      let divides : (q.num_desc == 0) ≡ false = ground arith in
      let head = rings.avail_ring q.vring (q.last_avail_idx % q.num_desc) in
      elim (Bool-cases (q.last_avail_idx == rings.avail_idx q.vring)) [
        | inl done ↦ rw done (omega arith)
        | inr more ↦
            rw (more, divides, same)
              (and_then-Succeeds (Walked left) (λ u. u.ret ≤ ret + left)
                (chain_loop negative mmap rings left 0 v r q head) _
                (chain_loop-returns left 0 v q head plain room)
                (λ w (kept, shorter, fits). elim (Bool-cases w.complete) [
                  | inl whole ↦ rw whole (
                      Succeeds-map (λ u. u.ret ≤ ret + 1 + w.left) (λ u. u.ret ≤ ret + left) _
                        (λ u k. omega (arith, shorter whole))
                        (blk_rounds-returns rounds w.left (ret + 1) w.vhost w.memory
                          (inc_last_avail_idx q) (omega (arith, shorter whole)) kept some_desc plain
                          fits))
                  | inr stop ↦ rw stop (omega arith)
                ]))
      ]

  -- The loop over the requests of a block device ends with a result, for a queue that has
  -- descriptors, whatever they are chained to, if each of the queue's own descriptors is in known
  -- memory and none of them is indirect, and if 63 regions more can be counted in an `int`: it has
  -- taken at most 63 requests, and however many more rounds it is given than the 64 that its count
  -- of descriptors leaves it, the result is the same.
  pub update_blk_table_from_queue-terminates :
      (more : ℕ) (v : Vhost) (q : VirtQueue Vring)
      → 0 < q.num_desc
      → ((i : ℕ)
          → i < q.num_desc
          → gpa_to_hva negative mmap r (desc_of rings q i).addr ≡ Result.ok (hva i, r))
      → ((i : ℕ) → i < q.num_desc → has (desc_of rings q i).flags rings.desc_f_indirect ≡ false)
      → v.mem_table_idx + 63 < 2 ^ 31
      → Succeeds (λ u. u.ret ≤ 63) (update_blk_table_from_queue negative mmap rings v r q)
        × (blk_rounds negative mmap rings (64 + more) 63 0 v r q
            ≡ update_blk_table_from_queue negative mmap rings v r q)
  unfolding update_blk_table_from_queue
  update_blk_table_from_queue-terminates more v q some_desc known direct room = (
    blk_rounds-returns 64 63 0 v r q (omega arith) refl some_desc (known, direct) room,
    rounds_agree negative mmap rings (64 + more) 64 63 0 v r q (omega arith) (omega arith),
  )

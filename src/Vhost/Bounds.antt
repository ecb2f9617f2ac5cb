-- ===== src/Vhost/Bounds.antt =====
-- Vhost.cpp: the number of regions that the kernel is told of.
use type_ii_hypervisor_code.Common.{
  ℕ, zero, suc, ◌+◌, ◌-◌, ◌^◌, ◌*◌, ◌≤◌, ◌≡◌, refl, ◌==◌, leb, arith, Bool-cases, inl, inr, Holds,
  Holds-all, Holds-map, Holds-if, and_then-Holds,
}
use type_ii_hypervisor_code.Word.{add64, has}
use type_ii_hypervisor_code.MemoryMap.{Regions, Mmap, gpa_to_hva}
use type_ii_hypervisor_code.Queue.{VirtQueue, inc_last_avail_idx}
use type_ii_hypervisor_code.Vhost.{
  VringDesc, GuestRings, Vhost, next_desc, desc_count, add_region, put_region, indirect_loop,
  update_table_indirect, update_table_entry,
}
use type_ii_hypervisor_code.Vhost.Walks.{
  chain_loop, head_of, blk_rounds, update_blk_table_from_queue, update_net_table_from_queue,
}
use type_ii_hypervisor_code.Vhost.Tables.{
  Tables, close_table, closed, blk_kept, net_queues, update_memory_table,
}
use type_ii_hypervisor_code.Vhost.Rounds.{after_next}

module _ {Vring : Type 0} (negative : ℕ) (mmap : Mmap) (rings : GuestRings Vring) (n : ℕ) where
  Told : Vhost × Regions → Type 0
  Told a = a.0.nregions ≡ n

  add_region-Told :
      (v : Vhost) (r : Regions) (d : VringDesc)
      → v.nregions ≡ n
      → Holds (λ a. a.1.nregions ≡ n) (add_region negative mmap v r d)
  unfolding add_region put_region
  add_region-Told v r d h =
      and_then-Holds (λ a. Unit) (λ a. a.1.nregions ≡ n) (gpa_to_hva negative mmap r d.addr) _
        (Holds-all _ _ (λ a. tt))
        (λ a u. Holds-if (λ a. a.1.nregions ≡ n) (v.mem_table_idx == 2 ^ 31 - 1) _ _ tt h)

  indirect_loop-Told :
      (left : ℕ) (v : Vhost) (r : Regions) (desc i : ℕ)
      → v.nregions ≡ n
      → Holds Told (indirect_loop negative mmap rings left v r desc i)
  unfolding indirect_loop Told
  indirect_loop-Told zero v r desc i h = h
  indirect_loop-Told (suc left) v r desc i h =
      let here = add64 desc (i * rings.desc_size) in
      and_then-Holds (λ a. a.1.nregions ≡ n) Told
        (add_region negative mmap v r (rings.load_desc here)) _
        (add_region-Told v r (rings.load_desc here) h)
        (λ a k. elim (Bool-cases (has (rings.load_desc here).flags rings.desc_f_indirect)) [
          | inl nested ↦ rw nested k
          | inr plain ↦ rw plain (
              after_next (Holds Told) (next_desc rings (rings.load_desc here)) _ _ k
                (λ j. indirect_loop-Told left a.1 a.2 here j k))
        ])

  update_table_entry-Told :
      (v : Vhost) (r : Regions) (d : VringDesc)
      → v.nregions ≡ n
      → Holds Told (update_table_entry negative mmap rings v r d)
  unfolding update_table_entry update_table_indirect Told
  update_table_entry-Told v r d h =
      and_then-Holds (λ a. a.1.nregions ≡ n) Told (add_region negative mmap v r d) _
        (add_region-Told v r d h)
        (λ a k. elim (Bool-cases (has d.flags rings.desc_f_indirect)) [
          | inl indirect ↦ rw indirect (indirect_loop-Told (desc_count rings d.len) a.1 a.2 a.0 0 k)
          | inr plain ↦ rw plain k
        ])

  chain_loop-Told :
      (left entered : ℕ) (v : Vhost) (r : Regions) (q : VirtQueue Vring) (i : ℕ)
      → v.nregions ≡ n
      → Holds (λ w. w.vhost.nregions ≡ n) (chain_loop negative mmap rings left entered v r q i)
  unfolding chain_loop Told
  chain_loop-Told zero entered v r q i h = h
  chain_loop-Told (suc left) entered v r q i h =
      let d = rings.load_desc (add64 (rings.desc q.vring) (i * rings.desc_size)) in
      elim (Bool-cases (leb q.num_desc i)) [
        | inl out ↦ rw out h
        | inr inside ↦ rw inside (
            and_then-Holds Told (λ w. w.vhost.nregions ≡ n)
              (update_table_entry negative mmap rings v r d) _ (update_table_entry-Told v r d h)
              (λ a k.
                after_next (Holds (λ w. w.vhost.nregions ≡ n)) (next_desc rings d) _ _ k
                  (λ j. chain_loop-Told left (entered + 1) a.0 a.1 q j k)))
      ]

  blk_rounds-Told :
      (rounds left ret : ℕ) (v : Vhost) (r : Regions) (q : VirtQueue Vring)
      → v.nregions ≡ n
      → Holds (λ u. u.vhost.nregions ≡ n) (blk_rounds negative mmap rings rounds left ret v r q)
  unfolding blk_rounds
  blk_rounds-Told zero left ret v r q h = tt
  blk_rounds-Told (suc rounds) left ret v r q h =
      elim (Bool-cases (q.last_avail_idx == rings.avail_idx q.vring)) [
        | inl done ↦ rw done h
        | inr more ↦ rw more (
            and_then-Holds (λ i. Unit) (λ u. u.vhost.nregions ≡ n) (head_of rings q) _
              (Holds-all _ _ (λ i. tt))
              (λ i t.
                and_then-Holds (λ w. w.vhost.nregions ≡ n) (λ u. u.vhost.nregions ≡ n)
                  (chain_loop negative mmap rings left 0 v r q i) _
                  (chain_loop-Told left 0 v r q i h)
                  (λ w k. elim (Bool-cases w.complete) [
                    | inl whole ↦ rw whole (
                        blk_rounds-Told rounds w.left (ret + 1) w.vhost w.memory
                          (inc_last_avail_idx q) k)
                    | inr stop ↦ rw stop k
                  ])))
      ]

  net_queues-Told :
      (left i ret : ℕ) (t : Tables Vring)
      → t.vhost.nregions ≡ n
      → Holds (λ a. a.1.vhost.nregions ≡ n) (net_queues negative mmap rings left i ret t)
  unfolding net_queues update_net_table_from_queue
  net_queues-Told zero i ret t h = h
  net_queues-Told (suc left) i ret t h =
      and_then-Holds (λ u. u.vhost.nregions ≡ n) (λ a. a.1.vhost.nregions ≡ n)
        (update_net_table_from_queue negative mmap rings t.vhost t.memory (t.queues i)) _
        (and_then-Holds (λ k. Unit) (λ u. u.vhost.nregions ≡ n) (head_of rings (t.queues i)) _
          (Holds-all _ _ (λ k. tt))
          (λ k u.
            and_then-Holds (λ w. w.vhost.nregions ≡ n) (λ u. u.vhost.nregions ≡ n)
              (chain_loop negative mmap rings 63 0
                (record t.vhost { mem_table_idx = t.vhost.nregions }) t.memory (t.queues i) k)
              _
              (chain_loop-Told 63 0 (record t.vhost { mem_table_idx = t.vhost.nregions }) t.memory
                (t.queues i) k h)
              (λ w e. e)))
        (λ u k. net_queues-Told left (i + 1) (ret + u.ret) _ k)

module _ {Vring : Type 0} (negative : ℕ) (mmap : Mmap) (rings : GuestRings Vring) where
  closed-bound :
      (a : ℕ × Tables Vring)
      → a.1.vhost.nregions ≤ 64
      → Holds (λ t. t.vhost.nregions ≤ 64) (closed a)
  unfolding close_table
  closed-bound a h = ground arith

  -- Whatever the guest has put into the queues, if the table is made, with no undefined behaviour on
  -- the way (an overflow of the `int` that counts the entries is one), the kernel is told of at most
  -- 64 regions, if it was before, by a net device as by a block device.
  pub update_memory_table-bound :
      (t : Tables Vring)
      → t.vhost.nregions ≤ 64
      → Holds (λ t'. t'.vhost.nregions ≤ 64) (update_memory_table negative mmap rings t)
  unfolding update_memory_table update_blk_table_from_queue
  update_memory_table-bound t h =
      and_then-Holds (λ a. a.1.vhost.nregions ≤ 64) (λ t'. t'.vhost.nregions ≤ 64) _ closed
        (Holds-if (λ a. a.1.vhost.nregions ≤ 64) t.vhost.is_net _ _
          (Holds-map (λ a. a.1.vhost.nregions ≡ t.vhost.nregions) (λ a. a.1.vhost.nregions ≤ 64) _
            (λ a e. omega arith)
            (net_queues-Told negative mmap rings t.vhost.nregions t.vhost.num_queues 0 0 t refl))
          (and_then-Holds (λ u. u.vhost.nregions ≡ t.vhost.nregions) (λ a. a.1.vhost.nregions ≤ 64)
            (update_blk_table_from_queue negative mmap rings t.vhost t.memory (t.queues 0))
            (blk_kept t)
            (blk_rounds-Told negative mmap rings t.vhost.nregions 64 63 0 t.vhost t.memory
              (t.queues 0) refl)
            (λ u e. omega arith)))
        closed-bound

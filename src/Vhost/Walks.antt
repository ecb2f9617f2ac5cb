-- ===== src/Vhost/Walks.antt =====
-- Vhost.cpp: the descriptors of a queue, by the requests that the guest has made.
use type_ii_hypervisor_code.Common.{
  ℕ, zero, suc, ◌+◌, ◌*◌, ◌%◌, if◌then◌else◌, Bool, true, false, ◌==◌, leb, none, some, Result,
  and_then,
}
use type_ii_hypervisor_code.Word.{add64}
use type_ii_hypervisor_code.MemoryMap.{Regions, Mmap}
use type_ii_hypervisor_code.Queue.{VirtQueue, inc_last_avail_idx}
use type_ii_hypervisor_code.Vhost.{GuestRings, Vhost, next_desc, update_table_entry}

-- What the loop over a chain leaves: whether the chain came to its end, the descriptors that
-- `found` still allows, the number that was entered, the table and the memory map.
pub record Walk : Type 0 where
  pub complete : Bool
  pub left : ℕ
  pub entered : ℕ
  pub vhost : Vhost
  pub memory : Regions

abbrev pub stopped : ℕ → ℕ → Vhost → Regions → Walk
stopped left entered v r = record {
  complete = false;
  left = left;
  entered = entered;
  vhost = v;
  memory = r;
}

abbrev pub at_end : ℕ → ℕ → Vhost × Regions → Walk
at_end left entered a = record {
  complete = true;
  left = left;
  entered = entered;
  vhost = a.0;
  memory = a.1;
}

module _ {Vring : Type 0} (negative : ℕ) (mmap : Mmap) (rings : GuestRings Vring) where
  -- The inner loop of both kinds of queue, from descriptor i of the queue. It stops at an index
  -- that the queue does not have, and when `found` passes 63, in either order.
  unfoldable pub chain_loop : ℕ → ℕ → Vhost → Regions → VirtQueue Vring → ℕ → Result Walk
  unfolding update_table_entry next_desc
  chain_loop zero entered v r q i = Result.ok (stopped 0 entered v r)
  chain_loop (suc left) entered v r q i =
      if leb q.num_desc i
      then Result.ok (stopped (suc left) entered v r)
      else let d = rings.load_desc (add64 (rings.desc q.vring) (i * rings.desc_size)) in
        and_then (update_table_entry negative mmap rings v r d) (λ a. elim (next_desc rings d) [
          | none ↦ Result.ok (at_end left (entered + 1) a)
          | some j ↦ chain_loop left (entered + 1) a.0 a.1 q j
        ])

-- The number that a call adds to `ret`, the queue, the table and the memory map.
pub record Updated (Vring : Type 0) : Type 0 where
  pub ret : ℕ
  pub queue : VirtQueue Vring
  pub vhost : Vhost
  pub memory : Regions

module _ {Vring : Type 0} (rings : GuestRings Vring) where
  -- The first descriptor of the request at `last_avail_idx`. A queue without descriptors divides by
  -- zero.
  unfoldable pub head_of : VirtQueue Vring → Result ℕ
  head_of q =
      if q.num_desc == 0
      then Result.undefined
      else Result.ok (rings.avail_ring q.vring (q.last_avail_idx % q.num_desc))

abbrev pub net_walked : {Vring : Type 0} → VirtQueue Vring → Walk → Result (Updated Vring)
net_walked q w = Result.ok (record {
  ret = w.entered;
  queue = if w.complete then inc_last_avail_idx q else q;
  vhost = w.vhost;
  memory = w.memory;
})

module _ {Vring : Type 0} (negative : ℕ) (mmap : Mmap) (rings : GuestRings Vring) where
  -- One request is taken whether or not the guest has made one.
  unfoldable pub update_net_table_from_queue :
      Vhost → Regions → VirtQueue Vring → Result (Updated Vring)
  unfolding head_of chain_loop
  update_net_table_from_queue v r q = and_then (head_of rings q) (λ i.
      and_then (chain_loop negative mmap rings 63 0 (record v { mem_table_idx = v.nregions }) r q i)
        (net_walked q))

  -- The requests that the guest has made. `found` runs on over all of them, and each takes one
  -- descriptor at least, so 64 rounds are enough.
  unfoldable pub blk_rounds : ℕ → ℕ → ℕ → Vhost → Regions → VirtQueue Vring → Result (Updated Vring)
  unfolding head_of chain_loop inc_last_avail_idx
  blk_rounds zero left ret v r q = Result.undefined
  blk_rounds (suc rounds) left ret v r q =
      if q.last_avail_idx == rings.avail_idx q.vring
      then Result.ok (record { ret = ret; queue = q; vhost = v; memory = r })
      else and_then (head_of rings q) (λ i.
        and_then (chain_loop negative mmap rings left 0 v r q i) (λ w.
          if w.complete
          then blk_rounds rounds w.left (ret + 1) w.vhost w.memory (inc_last_avail_idx q)
          else Result.ok (record { ret = ret; queue = q; vhost = w.vhost; memory = w.memory })))

  unfoldable pub update_blk_table_from_queue :
      Vhost → Regions → VirtQueue Vring → Result (Updated Vring)
  unfolding blk_rounds
  update_blk_table_from_queue = blk_rounds 64 63 0

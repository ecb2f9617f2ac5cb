-- ===== src/Vhost/Tables.antt =====
-- Vhost.cpp: `updateMemoryTable`, over all queues.
use type_ii_hypervisor_code.Common.{
  ℕ, zero, suc, ◌+◌, if◌then◌else◌, Bool, ◌==◌, ltb, Result, and_then,
}
use type_ii_hypervisor_code.MemoryMap.{Regions, Mmap}
use type_ii_hypervisor_code.Queue.{VirtQueue}
use type_ii_hypervisor_code.Vhost.{GuestRings, Vhost, vhost_memory_max_nregions}
use type_ii_hypervisor_code.Vhost.Walks.{
  Updated, update_net_table_from_queue, update_blk_table_from_queue,
}

-- `nregions` as it is set when an entry was made; the table then goes to the kernel.
unfoldable pub close_table : ℕ → Vhost → Vhost
close_table ret v =
    if ltb 0 ret
    then record v {
      nregions =
          if ltb vhost_memory_max_nregions v.mem_table_idx
          then vhost_memory_max_nregions
          else v.mem_table_idx;
    }
    else v

-- The queues, the table and the memory map.
pub record Tables (Vring : Type 0) : Type 0 where
  pub queues : ℕ → VirtQueue Vring
  pub vhost : Vhost
  pub memory : Regions

-- The queue of a block device is put back.
abbrev pub blk_kept : {Vring : Type 0} → Tables Vring → Updated Vring → Result (ℕ × Tables Vring)
blk_kept t u = Result.ok (
  u.ret,
  record {
    queues = λ k. if k == 0 then u.queue else t.queues k;
    vhost = u.vhost;
    memory = u.memory;
  },
)

abbrev pub closed : {Vring : Type 0} → ℕ × Tables Vring → Result (Tables Vring)
closed a = Result.ok (record a.1 { vhost = close_table a.0 a.1.vhost })

module _ {Vring : Type 0} (negative : ℕ) (mmap : Mmap) (rings : GuestRings Vring) where
  -- The queues from the i-th on, `left` of them.
  unfoldable pub net_queues : ℕ → ℕ → ℕ → Tables Vring → Result (ℕ × Tables Vring)
  unfolding update_net_table_from_queue
  net_queues zero i ret t = Result.ok (ret, t)
  net_queues (suc left) i ret t =
      and_then (update_net_table_from_queue negative mmap rings t.vhost t.memory (t.queues i)) (λ u.
        net_queues left (i + 1) (ret + u.ret) (record {
          queues = λ k. if k == i then u.queue else t.queues k;
          vhost = u.vhost;
          memory = u.memory;
        }))

  unfoldable pub update_memory_table : Tables Vring → Result (Tables Vring)
  unfolding update_blk_table_from_queue net_queues close_table
  update_memory_table t =
      and_then
        (if t.vhost.is_net
          then net_queues t.vhost.num_queues 0 0 t
          else and_then
              (update_blk_table_from_queue negative mmap rings t.vhost t.memory (t.queues 0))
              (blk_kept t))
        closed

-- `Initialize` once the device file is open, with the memory that `allocMemRegion` gave; `is_net`
-- tells whether the path holds "net".
unfoldable pub initialize : Vhost → Bool → Vhost
initialize v is_net = record v { nregions = 0; mem_table_idx = 0; is_net = is_net }

unfoldable pub set_queues : Vhost → ℕ → Vhost
set_queues v num = record v { num_queues = num }

unfoldable pub set_features : Vhost → ℕ → Vhost
set_features v features = record v { guest_features = features }

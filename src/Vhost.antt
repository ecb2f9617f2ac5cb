-- ===== src/Vhost.antt =====
-- Vhost.h and Vhost.cpp: the table of memory regions that the kernel's back end is given, made from
-- the descriptors that the guest has put into a queue. The ioctl calls are left out. `GuestRings`
-- has what virtio_ring.h of the kernel headers says of a ring in guest memory, as it stands while
-- the table is made. `memTableIdx`, an
-- `int` that a block device never resets, counts the regions written; its overflow is undefined.
pub mod Walks
pub mod Tables
pub mod Entries
pub mod Indirect
pub mod Chains
pub mod Rounds
pub mod Bounds
use type_ii_hypervisor_code.Common.{
  ℕ, zero, suc, ◌+◌, ◌-◌, ◌*◌, ◌/◌, ◌%◌, ◌^◌, if◌then◌else◌, Bool, true, false, ◌==◌, ltb, leb,
  Option, none, some, Result, and_then,
}
use type_ii_hypervisor_code.Word.{u32, add64, has}
use type_ii_hypervisor_code.MemoryMap.{Regions, Mmap, gpa_to_hva}
use type_ii_hypervisor_code.Queue.{VirtQueue, inc_last_avail_idx}

pub record VringDesc : Type 0 where
  pub addr : ℕ
  pub len : ℕ
  pub flags : ℕ
  pub next : ℕ

pub record GuestRings (Vring : Type 0) : Type 0 where
  pub desc_f_next : ℕ
  pub desc_f_indirect : ℕ
  pub desc_size : ℕ  -- of a descriptor
  pub load_desc : ℕ → VringDesc  -- at a host address
  pub desc : Vring → ℕ
  pub avail_idx : Vring → ℕ
  pub avail_ring : Vring → ℕ → ℕ

abbrev pub vhost_memory_max_nregions : ℕ
vhost_memory_max_nregions = 64

pub record MemoryRegion : Type 0 where
  pub guest_phys_addr : ℕ
  pub userspace_addr : ℕ
  pub memory_size : ℕ

pub record Vhost : Type 0 where
  pub regions : ℕ → MemoryRegion  -- of `memoryTable`
  pub nregions : ℕ  -- of `memoryTable`
  pub mem_table_idx : ℕ
  pub num_queues : ℕ
  pub is_net : Bool
  pub guest_features : ℕ

-- The entry at an index.
unfoldable pub put_region : Vhost → ℕ → MemoryRegion → Vhost
put_region v k reg = record v { regions = λ j. if j == k then reg else v.regions j }

-- An `int` as 64 bits.
abbrev pub from_int : ℕ → ℕ
from_int len = if ltb len (2 ^ 31) then len else len + (2 ^ 64 - 2 ^ 32)

module _ {Vring : Type 0} (rings : GuestRings Vring) where
  -- `none` is -1.
  unfoldable pub next_desc : VringDesc → Option ℕ
  next_desc d = if has d.flags rings.desc_f_next then some d.next else none

  -- The number of descriptors in an indirect table, an `unsigned int`.
  unfoldable pub desc_count : ℕ → ℕ
  desc_count len = u32 (from_int len / rings.desc_size)

module _ (negative : ℕ) (mmap : Mmap) where
  -- The lines that enter one descriptor, with the host address that it has.
  unfoldable pub add_region : Vhost → Regions → VringDesc → Result (ℕ × Vhost × Regions)
  unfolding put_region
  add_region v r d = and_then (gpa_to_hva negative mmap r d.addr) (λ a.
      if v.mem_table_idx == 2 ^ 31 - 1
      then Result.undefined
      else Result.ok (
        a.0,
        record (put_region v (v.mem_table_idx % vhost_memory_max_nregions)
            (record { guest_phys_addr = d.addr; userspace_addr = a.0; memory_size = d.len })) {
              mem_table_idx = v.mem_table_idx + 1;
            },
        a.1,
      ))

module _ {Vring : Type 0} (negative : ℕ) (mmap : Mmap) (rings : GuestRings Vring) where
  -- The loop of `updateTableIndirect`, with the rounds left before `found` passes `count`.
  unfoldable pub indirect_loop : ℕ → Vhost → Regions → ℕ → ℕ → Result (Vhost × Regions)
  unfolding add_region next_desc
  indirect_loop zero v r desc i = Result.ok (v, r)
  indirect_loop (suc left) v r desc i =
      let here = add64 desc (i * rings.desc_size) in
      let d = rings.load_desc here in
      and_then (add_region negative mmap v r d) (λ a.
        if has d.flags rings.desc_f_indirect
        then Result.ok (a.1, a.2)
        else elim (next_desc rings d) [
          | none ↦ Result.ok (a.1, a.2)
          | some j ↦ indirect_loop left a.1 a.2 here j
        ])

  unfoldable pub update_table_indirect : Vhost → Regions → ℕ → ℕ → Result (Vhost × Regions)
  unfolding indirect_loop desc_count
  update_table_indirect v r indirect len = indirect_loop (desc_count rings len) v r indirect 0

  unfoldable pub update_table_entry : Vhost → Regions → VringDesc → Result (Vhost × Regions)
  unfolding add_region update_table_indirect
  update_table_entry v r d = and_then (add_region negative mmap v r d) (λ a.
      if has d.flags rings.desc_f_indirect
      then update_table_indirect a.1 a.2 a.0 d.len
      else Result.ok (a.1, a.2))

-- ===== src/Tests/Rings.antt =====
-- The virtio devices and the table of the back end at concrete inputs.
use type_ii_hypervisor_code.Common.{
  ℕ, ◌≡◌, refl, ap, ◌+◌, ◌-◌, ◌*◌, ◌/◌, ◌%◌, ◌^◌, ◌<◌, ◌≤◌, ◌==◌, ltb, leb, if◌then◌else◌, true,
  false, not, ◌&&◌, Bool-cases, inl, inr, arith, none, some, [], ◌∷◌, Result, Holds, Succeeds,
}
use type_ii_hypervisor_code.Word.{bit, has}
use type_ii_hypervisor_code.Word.Bits.{bit-zero}
use type_ii_hypervisor_code.Cp0.{is_interrupt_pending}
use type_ii_hypervisor_code.Cp0.Modes.{cause_of}
use type_ii_hypervisor_code.Ciu.Registers.{int_en0}
use type_ii_hypervisor_code.MemoryMap.{Mmap, gpa_to_hva, get_base_and_offset, translate_gpa_to_hva}
use type_ii_hypervisor_code.Queue.{VirtQueue, inc_last_avail_idx}
use type_ii_hypervisor_code.Vhost.{VringDesc, GuestRings, Vhost, next_desc, update_table_indirect}
use type_ii_hypervisor_code.Vhost.Walks.{blk_rounds, update_blk_table_from_queue}
use type_ii_hypervisor_code.Vhost.Tables.{Tables, update_memory_table}
use type_ii_hypervisor_code.Vhost.Entries.{region}
use type_ii_hypervisor_code.Vhost.Indirect.{update_table_indirect-doubles}
use type_ii_hypervisor_code.Vhost.Chains.{chained_desc}
use type_ii_hypervisor_code.Vhost.Rounds.{update_blk_table_from_queue-terminates}
use type_ii_hypervisor_code.Vhost.Bounds.{update_memory_table-bound}
use type_ii_hypervisor_code.Virtio.{VdevQueueInfo, set_guest_features}
use type_ii_hypervisor_code.Virtio.Disk.{Mmio, VirtioBlk, raise_interrupt, vnet_io_write}
use type_ii_hypervisor_code.Virtio.Rings.{Ascending}
use type_ii_hypervisor_code.Virtio.Requests.{vnet_io_write-notify}
use type_ii_hypervisor_code.Virtio.Interrupts.{vnet_io_write-ack}
use type_ii_hypervisor_code.Virtio.Features.{NetFeatures, net_features, net_guest_features}
use type_ii_hypervisor_code.Virtio.Features.Negotiated.{among, Below, net_guest_features-bits}

abbrev no_map : Mmap
no_map n size = none

-- The offsets of virtio_mmio.h.
abbrev mmio : Mmio
mmio = record {
  guest_features = 0x20;
  guest_features_sel = 0x24;
  queue_sel = 0x30;
  queue_num = 0x38;
  queue_align = 0x3c;
  queue_pfn = 0x40;
  queue_notify = 0x50;
  interrupt_ack = 0x64;
  status = 0x70;
  config = 0x100;
}

abbrev registers : ℕ → VdevQueueInfo
registers num = record {
  queue_num_max = 0x100;
  queue_num = num;
  queue_align = 0x1000;
  queue_pfn = 0;
}

abbrev unset : VirtQueue ℕ
unset = record { gpa = 0; hva = 0; num_desc = 0; last_avail_idx = 0; vring = 0 }

-- Descriptors in the order of their addresses; the one at `last` ends a chain. All of them are in
-- the first megabyte.
abbrev desc_at : ℕ → ℕ → VringDesc
desc_at last a = record {
  addr = 0x1000;
  len = 0x200;
  flags = if a == last then 0 else 1;
  next = (a - 2 ^ 41) / 16 + 1;
}

abbrev rings : ℕ → GuestRings ℕ
rings last = record {
  desc_f_next = 1;
  desc_f_indirect = 4;
  desc_size = 16;
  load_desc = desc_at last;
  desc = λ ring. 2 ^ 41;
  avail_idx = λ ring. 1;
  avail_ring = λ ring i. 0;
}

abbrev table : Vhost
table = record {
  regions = λ i. record { guest_phys_addr = 0; userspace_addr = 0; memory_size = 0 };
  nregions = 0;
  mem_table_idx = 0;
  num_queues = 1;
  is_net = false;
  guest_features = 0;
}

-- Queue 0 is selected and has 8 descriptors; queue 1 has 64.
abbrev disk : VirtioBlk ℕ
disk = record {
  device = record {
    host_features = 0;
    guest_features_sel = 0;
    info = registers 8;
    saved_queues = λ i. registers 64;
    queues = λ i. unset;
    selected_index = 0;
    ack_guest_features = 0;
    backend_host_features = 0;
    interrupt_status = 0;
    device_started = false;
    header = record { magic_value = 0; version = 0; device_id = 0; vendor_id = 0 };
    num_queues = 1;
    host_client = table;
    kicked = [];
  };
  ciu = record { memory = λ j. 0; cores = λ k i. 0; nmi_pulse = λ k. false; num_cores = 4 };
  regions = record {
    gpa_map =
        λ k. if k == 0 then some (record { hva = 2 ^ 40; size = 2 ^ 28; map_idx = 0 }) else none;
    calls = 0;
  };
}

ascending : Ascending mmio
unfolding Ascending
ascending = (
  omega arith,
  omega arith,
  omega arith,
  omega arith,
  omega arith,
  omega arith,
  omega arith,
  omega arith,
  omega arith,
  omega arith,
)

-- Queue 0 with two descriptors chained.
abbrev loaded : VirtioBlk ℕ
loaded = record disk { device = record disk.device { queues = λ i. record unset { num_desc = 8 } } }

known_desc :
    (last a : ℕ)
    → gpa_to_hva 0 no_map disk.regions (desc_at last a).addr
      ≡ Result.ok (2 ^ 40 + 0x1000, disk.regions)
unfolding gpa_to_hva get_base_and_offset translate_gpa_to_hva
known_desc last a = refl

direct_desc : (last a : ℕ) → has (desc_at last a).flags 4 ≡ false
unfolding has
direct_desc last a = elim (Bool-cases (a == last)) [ inl end ↦ rw end refl | inr on ↦ rw on refl ]

linked_desc :
    (m : ℕ)
    → m < 1
    → next_desc (rings (2 ^ 41 + 16)) (chained_desc (rings (2 ^ 41 + 16)) 0 (λ k. k) m)
      ≡ some (m + 1)
unfolding next_desc has
linked_desc m h = let zero_m : m ≡ 0 = omega arith in rw zero_m refl

vnet_io_write-notify_example :
    (b' : VirtioBlk ℕ) × (vnet_io_write 0 no_map
        (λ num hva align. hva)
        (rings (2 ^ 41 + 16))
        (λ x. x)
        mmio
        loaded
        (record { addr = 5 * 2 ^ 9 + 0x50; value = 0; rw = 1 })
      ≡ Result.ok b')
    × (b'.device.device_started ≡ true)
    × (b'.device.queues 0 ≡ inc_last_avail_idx (loaded.device.queues 0))
    × (b'.device.kicked ≡ 0 ∷ [])
    × ((m : ℕ)
        → m ≤ 1
        → b'.device.host_client.regions ((0 + m) % 64)
          ≡ region (chained_desc (rings (2 ^ 41 + 16)) 0 (λ k. k) m) (2 ^ 40 + 0x1000))
unfolding next_desc has
vnet_io_write-notify_example =
    vnet_io_write-notify 0 no_map (λ num hva align. hva) (rings (2 ^ 41 + 16)) (λ x. x) mmio loaded
      5 0 1 (λ k. k) (λ k. 2 ^ 40 + 0x1000) ascending (omega arith) (omega arith) refl refl
      (λ m h. omega arith) (λ m h. known_desc (2 ^ 41 + 16) (2 ^ 41 + m * 16))
      (λ m h. direct_desc (2 ^ 41 + 16) ((2 ^ 41 + m * 16) % 2 ^ 64)) linked_desc refl (omega arith)
      (omega arith) (omega arith) refl refl

-- An indirect table of three descriptors; those that are entered are 0, 1 and 3.
update_table_indirect-doubles_example :
    (v : Vhost) × (update_table_indirect 0 no_map (rings 0) table disk.regions (2 ^ 41) (3 * 16)
      ≡ Result.ok (v, disk.regions))
    × (v.mem_table_idx ≡ 0 + 3)
    × ((m : ℕ)
        → m < 3
        → v.regions ((0 + m) % 64)
          ≡ region (desc_at 0 (2 ^ 41 + (2 ^ m - 1) * 16)) (2 ^ 40 + 0x1000))
unfolding has
update_table_indirect-doubles_example =
    update_table_indirect-doubles 0 no_map (rings 0) disk.regions (2 ^ 41) 3
      (λ k. desc_at 0 (2 ^ 41 + k * 16)) (λ k. 2 ^ 40 + 0x1000)
      (λ k h. ap (desc_at 0) (omega arith)) (λ k h. known_desc 0 (2 ^ 41 + k * 16))
      (λ k h. direct_desc 0 (2 ^ 41 + k * 16))
      (λ k h. let far : (2 ^ 41 + k * 16 == 0) ≡ false = ground arith in rw far refl)
      (λ k h. omega arith) table (omega arith) (omega arith) (omega arith) (omega arith)
      (omega arith)

update_blk_table_from_queue-terminates_example :
    let q = record unset { num_desc = 8 } in
    Succeeds (λ u. u.ret ≤ 63) (update_blk_table_from_queue 0 no_map (rings 0) table disk.regions q)
    × (blk_rounds 0 no_map (rings 0) (64 + 36) 63 0 table disk.regions q
        ≡ update_blk_table_from_queue 0 no_map (rings 0) table disk.regions q)
update_blk_table_from_queue-terminates_example =
    update_blk_table_from_queue-terminates 0 no_map (rings 0) disk.regions (λ a. 2 ^ 40 + 0x1000) 36
      table (record unset { num_desc = 8 }) (omega arith) (λ i h. known_desc 0 (2 ^ 41 + i * 16))
      (λ i h. direct_desc 0 ((2 ^ 41 + i * 16) % 2 ^ 64)) (omega arith)

abbrev tables : Tables ℕ
tables = record {
  queues = λ i. record unset { num_desc = 8 };
  vhost = record table { nregions = 64 };
  memory = disk.regions;
}

update_memory_table-bound_example :
    Holds (λ t. t.vhost.nregions ≤ 64) (update_memory_table 0 no_map (rings 0) tables)
update_memory_table-bound_example =
    update_memory_table-bound 0 no_map (rings 0) tables (omega arith)

-- Line 16 enabled for every core's IP2; the cores take interrupts on it.
abbrev busy : VirtioBlk ℕ
busy = record disk {
  device = record disk.device { interrupt_status = 1 };
  ciu = record {
    memory = λ j. if leb 64 j && leb j 111 then 2 ^ 16 else 0;
    cores = λ k i. if i == 96 then 0x401 else 0;
    nmi_pulse = λ k. false;
    num_cores = 4;
  };
}

vnet_io_write-ack_example :
    (is_interrupt_pending ((raise_interrupt (λ x. x) 1 busy).ciu.cores 2) ≡ true)
    × (b' : VirtioBlk ℕ) × (vnet_io_write 0 no_map
          (λ num hva align. hva)
          (rings 0)
          (λ x. x)
          mmio
          busy
          (record { addr = 5 * 2 ^ 9 + 0x64; value = 1; rw = 1 })
        ≡ Result.ok b')
    × (b'.device.interrupt_status ≡ 0)
    × (bit (cause_of (b'.ciu.cores 2)) 10 ≡ false)
unfolding bit
vnet_io_write-ack_example =
    vnet_io_write-ack 0 no_map (λ num hva align. hva) (rings 0) (λ x. x) mmio busy 2 5 1 ascending
      (omega arith) (omega arith) (omega arith) (omega arith) refl refl (refl, refl, refl)
      (omega arith)
      (λ i other. ap (λ b. b && bit (busy.ciu.memory (int_en0 (2 * 2))) i) (bit-zero i))

abbrev net : NetFeatures
net = record {
  net_f_csum = 0;
  net_f_host_tso4 = 11;
  net_f_host_tso6 = 12;
  net_f_host_ecn = 13;
  net_f_host_ufo = 14;
  net_f_guest_csum = 1;
  net_f_guest_tso4 = 7;
  net_f_guest_tso6 = 8;
  net_f_guest_ecn = 9;
  net_f_guest_ufo = 10;
}

below : Below (net_features net)
below = (
  omega arith,
  (
    omega arith,
    (
      omega arith,
      (
        omega arith,
        (
          omega arith,
          (omega arith, (omega arith, (omega arith, (omega arith, (omega arith, tt))))),
        ),
      ),
    ),
  ),
)

-- VIRTIO_NET_F_MAC, which is 5, is settled.
net_guest_features-bits_example :
    let lower = set_guest_features (λ x. x) (record disk.device { guest_features_sel = 0 }) 0x23 in
    let both = set_guest_features (λ x. x) (record lower { guest_features_sel = 1 }) 0 in
    bit (net_guest_features net both.ack_guest_features) 5
    ≡ (if ltb 5 32 then bit 0x23 5 else bit 0 (5 - 32)) && not (among 5 (net_features net))
net_guest_features-bits_example =
    net_guest_features-bits (λ x. x) net disk.device 0x23 0 5 below (omega arith) (omega arith)

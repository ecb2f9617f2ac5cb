-- ===== src/Virtio.antt =====
-- VirtioDevice.h and VirtioDevice.cpp: the registers of a virtio device. `swap` is `__cpu_to_le32`
-- of the kernel headers. The ioctl calls are left out; `kicked` lists the writes to the event
-- descriptors of the queues, the last one first. An index above 2 is behind the arrays of the
-- source: to notify such a queue is undefined.
pub mod Disk
pub mod Net
pub mod Rings
pub mod Features
pub mod Requests
pub mod Interrupts
use type_ii_hypervisor_code.Common.{
  ℕ, ◌*◌, ◌^◌, bit_and, bit_or, if◌then◌else◌, Bool, true, false, not, ◌==◌, ltb, List, ◌∷◌, Result,
  and_then,
}
use type_ii_hypervisor_code.Word.{u32, shr, not64}
use type_ii_hypervisor_code.MemoryMap.{Regions, Mmap}
use type_ii_hypervisor_code.Queue.{VirtQueue, create_vring}
use type_ii_hypervisor_code.Vhost.{Vhost, GuestRings}
use type_ii_hypervisor_code.Vhost.Tables.{Tables, update_memory_table, set_queues}

abbrev pub vdev_magic_value : ℕ
vdev_magic_value = 0x7669_7274

abbrev pub vdev_vendor_id : ℕ
vdev_vendor_id = 0x1af4

abbrev pub vdev_version : ℕ
vdev_version = 1

abbrev pub network_card_id : ℕ
network_card_id = 1

abbrev pub block_device_id : ℕ
block_device_id = 2

-- The same for the three queues.
abbrev pub queue_max_size : ℕ
queue_max_size = 0x100

pub record VdevQueueInfo : Type 0 where
  pub queue_num_max : ℕ
  pub queue_num : ℕ
  pub queue_align : ℕ
  pub queue_pfn : ℕ

pub record VdevHeader : Type 0 where
  pub magic_value : ℕ
  pub version : ℕ
  pub device_id : ℕ
  pub vendor_id : ℕ

pub record VirtioDevice (Vring : Type 0) : Type 0 where
  pub header : VdevHeader
  pub host_features : ℕ  -- `Features` of the host features
  pub guest_features_sel : ℕ  -- `FeaturesSel` of the guest features
  pub info : VdevQueueInfo  -- of the selected queue
  pub saved_queues : ℕ → VdevQueueInfo
  pub queues : ℕ → VirtQueue Vring
  pub selected_index : ℕ
  pub ack_guest_features : ℕ
  pub backend_host_features : ℕ
  pub interrupt_status : ℕ
  pub device_started : Bool
  pub num_queues : ℕ
  pub host_client : Vhost
  pub kicked : List ℕ

module _ {Vring : Type 0} where
  unfoldable pub save_queue : VirtioDevice Vring → ℕ → VirtioDevice Vring
  save_queue d index = record d {
    saved_queues = λ i. if i == index then d.info else d.saved_queues i;
  }

  unfoldable pub load_queue : VirtioDevice Vring → ℕ → VirtioDevice Vring
  load_queue d index = record d { info = d.saved_queues index }

  unfoldable pub tables_of : VirtioDevice Vring → Regions → Tables Vring
  tables_of d r = record { queues = d.queues; vhost = d.host_client; memory = r }

  -- The queues and the table of the back end are put back.
  abbrev pub with_tables : VirtioDevice Vring → Tables Vring → Result (VirtioDevice Vring × Regions)
  with_tables d t = Result.ok (record d { queues = t.queues; host_client = t.vhost }, t.memory)

module _ {Vring : Type 0} (swap : ℕ → ℕ) where
  unfoldable pub sel_host_features : VirtioDevice Vring → ℕ → VirtioDevice Vring
  sel_host_features d value = record d {
    host_features =
        if swap value == 0
        then swap (u32 d.backend_host_features)
        else swap (u32 (shr d.backend_host_features 32));
  }

  unfoldable pub set_guest_features : VirtioDevice Vring → ℕ → VirtioDevice Vring
  set_guest_features d value = record d {
    ack_guest_features =
        if d.guest_features_sel == 0
        then bit_or (bit_and d.ack_guest_features (not64 0xffff_ffff)) (swap value)
        else bit_or (bit_and d.ack_guest_features 0xffff_ffff) (swap value * 2 ^ 32);
  }

  unfoldable pub update_queue : VirtioDevice Vring → ℕ → VirtioDevice Vring
  unfolding save_queue load_queue
  update_queue d index =
      let idx = swap index in
      record (load_queue (save_queue d d.selected_index) idx) { selected_index = idx }

  unfoldable pub set_header : VirtioDevice Vring → ℕ → VirtioDevice Vring
  set_header d id = record d {
    header = record {
      magic_value = swap vdev_magic_value;
      version = swap vdev_version;
      device_id = swap id;
      vendor_id = swap vdev_vendor_id;
    };
  }

  -- The receive queue is loaded; `selected_index` stays as it is.
  unfoldable pub initialize_queues : VirtioDevice Vring → VirtioDevice Vring
  unfolding load_queue
  initialize_queues d =
      load_queue
        (record d {
          saved_queues = λ i.
              if ltb i 3
              then record (d.saved_queues i) { queue_num_max = swap queue_max_size }
              else d.saved_queues i;
        })
        0

  -- Once the registers are placed.
  unfoldable pub initialize_device : VirtioDevice Vring → ℕ → VirtioDevice Vring
  unfolding set_header initialize_queues
  initialize_device d id = initialize_queues (set_header (record d { device_started = false }) id)

module _ {Vring : Type 0} (negative : ℕ) (mmap : Mmap) (vring_init : ℕ → ℕ → ℕ → Vring) where
  unfoldable pub update_virt_queue :
      (ℕ → ℕ) → VirtioDevice Vring → Regions → ℕ → Result (VirtioDevice Vring × Regions)
  unfolding create_vring
  update_virt_queue swap d r value =
      and_then
        (create_vring negative mmap vring_init r (swap d.info.queue_num) (swap value)
          (swap d.info.queue_align))
        (λ a.
          Result.ok
            (record d { queues = λ i. if i == d.selected_index then a.0 else d.queues i }, a.1))

module _ {Vring : Type 0} (negative : ℕ) (mmap : Mmap) (rings : GuestRings Vring) where
  unfoldable pub start_device : VirtioDevice Vring → Regions → Result (VirtioDevice Vring × Regions)
  unfolding set_queues tables_of update_memory_table
  start_device d r =
      let d' = record d { host_client = set_queues d.host_client d.num_queues } in
      and_then (update_memory_table negative mmap rings (tables_of d' r))
        (with_tables (record d' { device_started = true }))

  unfoldable pub notify_device :
      (ℕ → ℕ) → VirtioDevice Vring → Regions → ℕ → Result (VirtioDevice Vring × Regions)
  unfolding tables_of update_memory_table
  notify_device swap d r value =
      if not d.device_started
      then Result.ok (d, r)
      else and_then (update_memory_table negative mmap rings (tables_of d r)) (λ t.
        if ltb (swap value) 3
        then with_tables (record d { kicked = swap value ∷ d.kicked }) t
        else Result.undefined)

-- ===== src/Virtio/Requests.antt =====
-- VirtioBlk.cpp, VirtioDevice.cpp and Vhost.cpp: the first request of the guest, from the notify
-- register to the table of the back end.
use type_ii_hypervisor_code.Common.{
  ℕ, ◌+◌, ◌*◌, ◌%◌, ◌^◌, ◌<◌, ◌≤◌, ◌≡◌, refl, ap, ◌∙◌, true, false, ◌==◌, ==-eq-false, ==_refl,
  arith, ltb, if◌then◌else◌, some, none, ◌∷◌, Result, and_then,
}
use type_ii_hypervisor_code.Word.{has}
use type_ii_hypervisor_code.MemoryMap.{Regions, Mmap, gpa_to_hva}
use type_ii_hypervisor_code.Queue.{inc_last_avail_idx}
use type_ii_hypervisor_code.Vhost.{GuestRings, next_desc}
use type_ii_hypervisor_code.Vhost.Tables.{Tables, update_memory_table, set_queues}
use type_ii_hypervisor_code.Vhost.Entries.{region}
use type_ii_hypervisor_code.Vhost.Chains.{
  chained_desc, update_memory_table-request, update_memory_table-idle,
}
use type_ii_hypervisor_code.Virtio.{VirtioDevice, tables_of, start_device, notify_device}
use type_ii_hypervisor_code.Virtio.Disk.{
  Mmio, VirtioBlk, with_memory, started, perform_operation, vnet_io_write,
}
use type_ii_hypervisor_code.Virtio.Rings.{Ascending, vnet_io_write-offset}

is_queue : (x : ℕ) → x < 3 → ltb x 3 ≡ true
is_queue x h = ground arith

module _ {Vring : Type 0} (negative : ℕ) (mmap : Mmap) (rings : GuestRings Vring) where
  -- A device that is not started is started with its table made from what the queues hold.
  started-ok :
      (d : VirtioDevice Vring) (r : Regions) (t : Tables Vring)
      → d.device_started ≡ false
      → update_memory_table negative mmap rings
          (tables_of (record d { host_client = set_queues d.host_client d.num_queues }) r)
        ≡ Result.ok t
      → started negative mmap rings d r
        ≡ Result.ok
            (record d { device_started = true; queues = t.queues; host_client = t.vhost }, t.memory)
  unfolding started start_device and_then set_queues
  started-ok d r t new table = rw new (rw table refl)

  notify_device-ok :
      (swap : ℕ → ℕ) (d : VirtioDevice Vring) (r : Regions) (t : Tables Vring) (value : ℕ)
      → d.device_started ≡ true
      → swap value < 3
      → update_memory_table negative mmap rings (tables_of d r) ≡ Result.ok t
      → notify_device negative mmap rings swap d r value
        ≡ Result.ok (
          record d { kicked = swap value ∷ d.kicked; queues = t.queues; host_client = t.vhost },
          t.memory,
        )
  unfolding notify_device and_then
  notify_device-ok swap d r t value on few table =
      rw on (rw (table, is_queue (swap value) few) refl)

module _ {Vring : Type 0} (negative : ℕ) (mmap : Mmap) (vring_init : ℕ → ℕ → ℕ → Vring)
    (rings : GuestRings Vring) (swap : ℕ → ℕ) (mmio : Mmio) where
  perform_operation-queue_notify :
      (b : VirtioBlk Vring) (value : ℕ)
      → Ascending mmio
      → perform_operation negative mmap vring_init rings swap mmio b mmio.queue_notify value
        ≡ and_then
            (started negative mmap rings b.device b.regions)
            (λ a. and_then (notify_device negative mmap rings swap a.0 a.1 value) (with_memory b))
  unfolding perform_operation Ascending
  perform_operation-queue_notify b value order =
      let (a, c, d, e, f, g, h, i, j, k) = order in
      let n = mmio.queue_notify in
      let one = ==-eq-false n mmio.guest_features (omega arith) in
      let two = ==-eq-false n mmio.guest_features_sel (omega arith) in
      let three = ==-eq-false n mmio.queue_sel (omega arith) in
      let four = ==-eq-false n mmio.queue_num (omega arith) in
      let five = ==-eq-false n mmio.queue_align (omega arith) in
      let six = ==-eq-false n mmio.queue_pfn (omega arith) in
      rw (one, two, three, four, five, six, ==_refl n) refl

  -- When the guest notifies a block device that is not started of its one request, by the number of
  -- one of its three queues, a chain of n + 1
  -- descriptors, 63 at most, none of them indirect and all of them in known memory, with
  -- room for them in the `int` that counts the regions: the device is
  -- started, the back end has a region for each descriptor in order, from the next slot on, the
  -- request is passed once, and the queue is kicked.
  pub vnet_io_write-notify :
      (b : VirtioBlk Vring) (base value n : ℕ) (c hva : ℕ → ℕ)
      → let q = b.device.queues 0 in
        let d = chained_desc rings q.vring c in
        let idx = b.device.host_client.mem_table_idx in
        Ascending mmio
        → value < 2 ^ 32
        → swap value < 3
        → b.device.device_started ≡ false
        → b.device.host_client.is_net ≡ false
        → ((m : ℕ) → m ≤ n → c m < q.num_desc)
        → ((m : ℕ)
            → m ≤ n
            → gpa_to_hva negative mmap b.regions (d m).addr ≡ Result.ok (hva m, b.regions))
        → ((m : ℕ) → m ≤ n → has (d m).flags rings.desc_f_indirect ≡ false)
        → ((m : ℕ) → m < n → next_desc rings (d m) ≡ some (c (m + 1)))
        → next_desc rings (d n) ≡ none
        → n < 63
        → idx + n + 1 < 2 ^ 31
        → q.last_avail_idx < 2 ^ 16
        → rings.avail_idx q.vring ≡ (q.last_avail_idx + 1) % 2 ^ 16
        → rings.avail_ring q.vring (q.last_avail_idx % q.num_desc) ≡ c 0
        → (b' : VirtioBlk Vring) × (vnet_io_write negative mmap vring_init rings swap mmio b
              (record { addr = base * 2 ^ 9 + mmio.queue_notify; value = value; rw = 1 })
            ≡ Result.ok b')
          × (b'.device.device_started ≡ true)
          × (b'.device.queues 0 ≡ inc_last_avail_idx q)
          × (b'.device.kicked ≡ swap value ∷ b.device.kicked)
          × ((m : ℕ)
              → m ≤ n
              → b'.device.host_client.regions ((idx + m) % 64) ≡ region (d m) (hva m))
  unfolding Ascending tables_of set_queues and_then inc_last_avail_idx
  vnet_io_write-notify b base value n c hva order word queue new blk inside known direct linked last
        short room range waiting head =
      let (a, c', d, e, f, g, h, i, j, k) = order in
      let dev = b.device in
      let (v, table, entries, idx, told, still_blk) =
        update_memory_table-request negative mmap rings
          (tables_of (record dev { host_client = set_queues dev.host_client dev.num_queues })
            b.regions)
          n c hva inside known direct linked last short room range waiting head blk in
      let t : Tables Vring = record {
        queues = λ k. if k == 0 then inc_last_avail_idx (dev.queues 0) else dev.queues k;
        vhost = v;
        memory = b.regions;
      } in
      let d' : VirtioDevice Vring = record dev {
        device_started = true;
        queues = t.queues;
        host_client = v;
      } in
      let passed : ((t.queues 0).last_avail_idx == rings.avail_idx (t.queues 0).vring) ≡ true =
        rw waiting (==_refl (((dev.queues 0).last_avail_idx + 1) % 2 ^ 16)) in
      let idle =
        update_memory_table-idle negative mmap rings (tables_of d' b.regions) passed still_blk in
      (
        record b {
          device = record d' {
            kicked = swap value ∷ dev.kicked;
            queues = λ k. if k == 0 then t.queues 0 else t.queues k;
          };
        },
        vnet_io_write-offset negative mmap vring_init rings swap mmio b base mmio.queue_notify value
              (omega arith) (omega arith) word
            ∙ perform_operation-queue_notify b value order
            ∙ ap
                (λ x. and_then x (λ a.
                  and_then (notify_device negative mmap rings swap a.0 a.1 value) (with_memory b)))
                (started-ok negative mmap rings dev b.regions t new table)
            ∙ ap (λ x. and_then x (with_memory b))
                (notify_device-ok negative mmap rings swap d' b.regions _ value refl queue idle),
        refl,
        refl,
        refl,
        entries,
      )

-- ===== src/Virtio/Rings.antt =====
-- VirtioBlk.cpp and VirtioDevice.cpp: the three queues behind one set of registers.
use type_ii_hypervisor_code.Common.{
  ℕ, ◌≡◌, refl, ◌∙◌, ◌+◌, ◌*◌, ◌%◌, ◌^◌, ◌<◌, bit_and, if◌then◌else◌, true, false, ◌==◌, leb, arith,
  Result, and_then, and_then_assoc,
}
use type_ii_hypervisor_code.Word.Masks.{and-low_mask}
use type_ii_hypervisor_code.MemoryMap.{Mmap}
use type_ii_hypervisor_code.Io.{vnet_offset_mask}
use type_ii_hypervisor_code.Queue.{create_vring}
use type_ii_hypervisor_code.Vhost.{GuestRings}
use type_ii_hypervisor_code.Virtio.{
  VdevQueueInfo, VirtioDevice, save_queue, load_queue, update_queue, update_virt_queue,
}
use type_ii_hypervisor_code.Virtio.Disk.{Mmio, VirtioBlk, perform_operation, vnet_io_write}

-- The registers of queue i, wherever they are kept.
unfoldable pub registers_of : {Vring : Type 0} → VirtioDevice Vring → ℕ → VdevQueueInfo
registers_of d i = if i == d.selected_index then d.info else d.saved_queues i

-- The offsets ascend, and fit the mask.
unfoldable pub Ascending : Mmio → Type 0
Ascending m =
    (m.guest_features < m.guest_features_sel)
    × (m.guest_features_sel < m.queue_sel)
    × (m.queue_sel < m.queue_num)
    × (m.queue_num < m.queue_align)
    × (m.queue_align < m.queue_pfn)
    × (m.queue_pfn < m.queue_notify)
    × (m.queue_notify < m.interrupt_ack)
    × (m.interrupt_ack < m.status)
    × (m.status < m.config)
    × (m.config < 2 ^ 9)

module _ {Vring : Type 0} (negative : ℕ) (mmap : Mmap) (vring_init : ℕ → ℕ → ℕ → Vring)
    (rings : GuestRings Vring) (swap : ℕ → ℕ) (mmio : Mmio) where
  perform_operation-queue_sel :
      (b : VirtioBlk Vring) (value : ℕ)
      → Ascending mmio
      → perform_operation negative mmap vring_init rings swap mmio b mmio.queue_sel value
        ≡ Result.ok (record b { device = update_queue swap b.device value })
  unfolding perform_operation Ascending
  perform_operation-queue_sel b value order =
      let (a, c, d, e, f, g, h, i, j, k) = order in
      let one : (mmio.queue_sel == mmio.guest_features) ≡ false = ground arith in
      let two : (mmio.queue_sel == mmio.guest_features_sel) ≡ false = ground arith in
      let three : (mmio.queue_sel == mmio.queue_sel) ≡ true = ground arith in
      rw (one, two, three) refl

  perform_operation-queue_pfn :
      (b : VirtioBlk Vring) (value : ℕ)
      → Ascending mmio
      → perform_operation negative mmap vring_init rings swap mmio b mmio.queue_pfn value
        ≡ and_then
            (update_virt_queue negative mmap vring_init swap b.device b.regions value)
            (λ a. Result.ok (record b { device = a.0; regions = a.1 }))
  unfolding perform_operation Ascending
  perform_operation-queue_pfn b value order =
      let (a, c, d, e, f, g, h, i, j, k) = order in
      let one : (mmio.queue_pfn == mmio.guest_features) ≡ false = ground arith in
      let two : (mmio.queue_pfn == mmio.guest_features_sel) ≡ false = ground arith in
      let three : (mmio.queue_pfn == mmio.queue_sel) ≡ false = ground arith in
      let four : (mmio.queue_pfn == mmio.queue_num) ≡ false = ground arith in
      let five : (mmio.queue_pfn == mmio.queue_align) ≡ false = ground arith in
      let six : (mmio.queue_pfn == mmio.queue_pfn) ≡ true = ground arith in
      rw (one, two, three, four, five, six) refl

  pub vnet_io_write-offset :
      (b : VirtioBlk Vring) (base offset value : ℕ)
      → offset < mmio.config
      → offset < 2 ^ 9
      → value < 2 ^ 32
      → vnet_io_write negative mmap vring_init rings swap mmio b
          (record { addr = base * 2 ^ 9 + offset; value = value; rw = 1 })
        ≡ perform_operation negative mmap vring_init rings swap mmio b offset value
  unfolding vnet_io_write
  vnet_io_write-offset b base offset value below small word =
      let place : bit_and (base * 2 ^ 9 + offset) vnet_offset_mask ≡ offset =
        and-low_mask 9 (base * 2 ^ 9 + offset) ∙ omega (arith, small) in
      let register : leb mmio.config offset ≡ false = ground arith in
      let same : value % 2 ^ 32 ≡ value = omega (arith, word) in rw (place, register, same) refl

  -- For offsets that ascend as in virtio_mmio.h, and a swap of bytes that is its own inverse on
  -- 32-bit words: when the guest selects queue i and then writes a page number, the ring of queue
  -- i is made at that page with the number and the alignment that the guest had stored for queue i,
  -- whichever queue was selected before; the rings and the registers of the other queues stay.
  vnet_io_write-ring :
      (b : VirtioBlk Vring) (base i page : ℕ)
      → Ascending mmio
      → ((x : ℕ) → x < 2 ^ 32 → swap x < 2 ^ 32)
      → ((x : ℕ) → x < 2 ^ 32 → swap (swap x) ≡ x)
      → i < 2 ^ 32
      → page < 2 ^ 32
      → let write = vnet_io_write negative mmap vring_init rings swap mmio in
        let own = registers_of b.device i in
        and_then
          (write b (record { addr = base * 2 ^ 9 + mmio.queue_sel; value = swap i; rw = 1 }))
          (λ b'.
            write b' (record { addr = base * 2 ^ 9 + mmio.queue_pfn; value = swap page; rw = 1 }))
        ≡ and_then
            (create_vring negative mmap vring_init b.regions
              (swap own.queue_num)
              page
              (swap own.queue_align))
            (λ a. Result.ok (record b {
              device = record b.device {
                info = own;
                saved_queues = λ k.
                    if k == b.device.selected_index then b.device.info else b.device.saved_queues k;
                selected_index = i;
                queues = λ k. if k == i then a.0 else b.device.queues k;
              };
              regions = a.1;
            }))
  unfolding registers_of update_queue save_queue load_queue update_virt_queue and_then Ascending
  vnet_io_write-ring b base i page order word inverse small small' =
      let (l₁, l₂, l₃, l₄, l₅, l₆, l₇, l₈, l₉, l₁₀) = order in
      rw
        (
          vnet_io_write-offset b base mmio.queue_sel (swap i) (omega arith) (omega arith)
              (word i small),
          perform_operation-queue_sel b (swap i) order,
        )
        (let b' : VirtioBlk Vring = record b { device = update_queue swap b.device (swap i) } in
          vnet_io_write-offset b' base mmio.queue_pfn (swap page) (omega arith) (omega arith)
            (word page small')
          ∙ perform_operation-queue_pfn b' (swap page) order
          ∙ and_then_assoc
              (create_vring negative mmap vring_init b.regions (swap b'.device.info.queue_num)
                (swap (swap page)) (swap b'.device.info.queue_align))
              _ _
          ∙ rw (inverse i small, inverse page small') refl)

-- ===== src/Virtio/Disk.antt =====
-- VirtioBlk.cpp: what a write to a register of the block device does. `Mmio` has the offsets of the
-- registers in virtio_mmio.h of the kernel headers. The configuration, the disk and the polling
-- threads are left out.
use type_ii_hypervisor_code.Common.{
  ℕ, ◌-◌, ◌^◌, bit_and, if◌then◌else◌, not, ◌||◌, ◌==◌, ltb, leb, Result, and_then,
}
use type_ii_hypervisor_code.Word.{u32}
use type_ii_hypervisor_code.Ciu.{Ciu, generate_interrupt, clear_interrupt}
use type_ii_hypervisor_code.MemoryMap.{Regions, Mmap}
use type_ii_hypervisor_code.Io.{DeviceMessageBox, vnet_offset_mask}
use type_ii_hypervisor_code.Vhost.{GuestRings}
use type_ii_hypervisor_code.Virtio.{
  VirtioDevice, start_device, sel_host_features, set_guest_features, update_queue, notify_device,
  update_virt_queue,
}

pub record Mmio : Type 0 where
  pub guest_features : ℕ
  pub guest_features_sel : ℕ
  pub queue_sel : ℕ
  pub queue_num : ℕ
  pub queue_align : ℕ
  pub queue_pfn : ℕ
  pub queue_notify : ℕ
  pub interrupt_ack : ℕ
  pub status : ℕ
  pub config : ℕ

pub record VirtioBlk (Vring : Type 0) : Type 0 where
  pub device : VirtioDevice Vring
  pub ciu : Ciu
  pub regions : Regions

abbrev pub ciu_sum_gpio0 : ℕ
ciu_sum_gpio0 = 16

module _ {Vring : Type 0} where
  unfoldable pub update_interrupt : VirtioBlk Vring → VirtioBlk Vring
  update_interrupt b = record b {
    ciu =
        if ltb 0 b.device.interrupt_status
        then generate_interrupt b.ciu ciu_sum_gpio0
        else clear_interrupt b.ciu ciu_sum_gpio0;
  }

  unfoldable pub ack_interrupt : VirtioBlk Vring → ℕ → VirtioBlk Vring
  unfolding update_interrupt
  ack_interrupt b value =
      let left = bit_and b.device.interrupt_status (2 ^ 32 - 1 - value) in
      update_interrupt (record b { device = record b.device { interrupt_status = left } })

  -- `int_vring` is VIRTIO_MMIO_INT_VRING.
  unfoldable pub raise_interrupt : (ℕ → ℕ) → ℕ → VirtioBlk Vring → VirtioBlk Vring
  unfolding update_interrupt
  raise_interrupt swap int_vring b =
      update_interrupt (record b { device = record b.device { interrupt_status = swap int_vring } })

  abbrev pub with_device : VirtioBlk Vring → VirtioDevice Vring → Result (VirtioBlk Vring)
  with_device b d = Result.ok (record b { device = d })

  abbrev pub with_memory : VirtioBlk Vring → VirtioDevice Vring × Regions → Result (VirtioBlk Vring)
  with_memory b a = Result.ok (record b { device = a.0; regions = a.1 })

module _ {Vring : Type 0} (negative : ℕ) (mmap : Mmap) (rings : GuestRings Vring) where
  -- `VblkStart` if the device is not started.
  unfoldable pub started : VirtioDevice Vring → Regions → Result (VirtioDevice Vring × Regions)
  unfolding start_device
  started d r =
      if not d.device_started then start_device negative mmap rings d r else Result.ok (d, r)

module _ {Vring : Type 0} (negative : ℕ) (mmap : Mmap) (vring_init : ℕ → ℕ → ℕ → Vring)
    (rings : GuestRings Vring) (swap : ℕ → ℕ) (mmio : Mmio) where
  unfoldable pub perform_operation : VirtioBlk Vring → ℕ → ℕ → Result (VirtioBlk Vring)
  unfolding ack_interrupt started notify_device
  perform_operation b addr value =
      let d = b.device in
      if addr == mmio.guest_features
      then with_device b (set_guest_features swap d value)
      else if addr == mmio.guest_features_sel
      then Result.ok b
      else if addr == mmio.queue_sel
      then with_device b (update_queue swap d value)
      else if addr == mmio.queue_num || addr == mmio.queue_align
      then Result.ok b
      else if addr == mmio.queue_pfn
      then and_then (update_virt_queue negative mmap vring_init swap d b.regions value)
          (with_memory b)
      else if addr == mmio.queue_notify
      then and_then (started negative mmap rings d b.regions)
          (λ a. and_then (notify_device negative mmap rings swap a.0 a.1 value) (with_memory b))
      else if addr == mmio.interrupt_ack
      then Result.ok (ack_interrupt b value)
      else if addr == mmio.status
      then Result.ok b
      else with_device b (sel_host_features swap d value)

  -- A write to the configuration is only reported on the console.
  unfoldable pub vnet_io_write : VirtioBlk Vring → DeviceMessageBox → Result (VirtioBlk Vring)
  unfolding perform_operation
  vnet_io_write b message =
      let addr = bit_and message.addr vnet_offset_mask in
      if leb mmio.config addr then Result.ok b else perform_operation b addr (u32 message.value)

-- ===== src/Virtio/Net.antt =====
-- Virtionet.cpp: what a write to a register of the network device does. It is compiled in with
-- ENABLE_VNET. The tap device's calls of the system and the polling threads are left out;
-- `offload` is what the tap device was told last.
use type_ii_hypervisor_code.Common.{
  ℕ, ◌-◌, ◌^◌, bit_and, if◌then◌else◌, ◌||◌, ◌==◌, ltb, leb, Result, and_then,
}
use type_ii_hypervisor_code.Word.{u32, has}
use type_ii_hypervisor_code.Ciu.{Ciu, generate_interrupt, clear_interrupt}
use type_ii_hypervisor_code.MemoryMap.{Regions, Mmap}
use type_ii_hypervisor_code.Io.{DeviceMessageBox, vnet_offset_mask}
use type_ii_hypervisor_code.Vhost.{GuestRings}
use type_ii_hypervisor_code.Vhost.Tables.{set_features}
use type_ii_hypervisor_code.Virtio.{
  VirtioDevice, start_device, sel_host_features, set_guest_features, update_queue, notify_device,
  update_virt_queue,
}
use type_ii_hypervisor_code.Virtio.Disk.{Mmio}
use type_ii_hypervisor_code.Virtio.Features.{NetFeatures, TunFlags, net_guest_features, tap_offload}

pub record VirtioNet (Vring : Type 0) : Type 0 where
  pub device : VirtioDevice Vring
  pub ciu : Ciu
  pub regions : Regions
  pub offload : ℕ

abbrev pub ciu_sum_gpio1 : ℕ
ciu_sum_gpio1 = 17

module _ {Vring : Type 0} where
  unfoldable pub update_interrupt : VirtioNet Vring → VirtioNet Vring
  update_interrupt n = record n {
    ciu =
        if ltb 0 n.device.interrupt_status
        then generate_interrupt n.ciu ciu_sum_gpio1
        else clear_interrupt n.ciu ciu_sum_gpio1;
  }

  unfoldable pub ack_interrupt : VirtioNet Vring → ℕ → VirtioNet Vring
  unfolding update_interrupt
  ack_interrupt n value =
      let left = bit_and n.device.interrupt_status (2 ^ 32 - 1 - value) in
      update_interrupt (record n { device = record n.device { interrupt_status = left } })

  -- `int_vring` is VIRTIO_MMIO_INT_VRING.
  unfoldable pub raise_interrupt : (ℕ → ℕ) → ℕ → VirtioNet Vring → VirtioNet Vring
  unfolding update_interrupt
  raise_interrupt swap int_vring n =
      update_interrupt (record n { device = record n.device { interrupt_status = swap int_vring } })

  abbrev pub net_device : VirtioNet Vring → VirtioDevice Vring → Result (VirtioNet Vring)
  net_device n d = Result.ok (record n { device = d })

  abbrev pub net_memory : VirtioNet Vring → VirtioDevice Vring × Regions → Result (VirtioNet Vring)
  net_memory n a = Result.ok (record n { device = a.0; regions = a.1 })

module _ {Vring : Type 0} (negative : ℕ) (mmap : Mmap) (vring_init : ℕ → ℕ → ℕ → Vring)
    (rings : GuestRings Vring) (swap : ℕ → ℕ) (mmio : Mmio) (f : NetFeatures) (t : TunFlags)
    (driver_ok : ℕ) where
  unfoldable pub vnet_start : VirtioNet Vring → Result (VirtioNet Vring)
  unfolding start_device set_features net_guest_features tap_offload
  vnet_start n =
      let d = n.device in
      let told = set_features d.host_client (net_guest_features f d.ack_guest_features) in
      and_then (start_device negative mmap rings (record d { host_client = told }) n.regions)
        (net_memory (record n { offload = tap_offload f t d.ack_guest_features }))

  -- `driver_ok` is VIRTIO_CONFIG_S_DRIVER_OK.
  unfoldable pub update_status : VirtioNet Vring → ℕ → Result (VirtioNet Vring)
  unfolding vnet_start
  update_status n stat = if has (swap stat) driver_ok then vnet_start n else Result.ok n

  unfoldable pub perform_operation : VirtioNet Vring → ℕ → ℕ → Result (VirtioNet Vring)
  unfolding ack_interrupt notify_device update_status
  perform_operation n addr value =
      let d = n.device in
      if addr == mmio.guest_features
      then net_device n (set_guest_features swap d value)
      else if addr == mmio.guest_features_sel
      then Result.ok n
      else if addr == mmio.queue_sel
      then net_device n (update_queue swap d value)
      else if addr == mmio.queue_num || addr == mmio.queue_align
      then Result.ok n
      else if addr == mmio.queue_pfn
      then and_then (update_virt_queue negative mmap vring_init swap d n.regions value)
          (net_memory n)
      else if addr == mmio.queue_notify
      then and_then (notify_device negative mmap rings swap d n.regions value) (net_memory n)
      else if addr == mmio.interrupt_ack
      then Result.ok (ack_interrupt n value)
      else if addr == mmio.status
      then update_status n value
      else net_device n (sel_host_features swap d value)

  -- A write to the configuration is only reported on the console.
  unfoldable pub vnet_io_write : VirtioNet Vring → DeviceMessageBox → Result (VirtioNet Vring)
  unfolding perform_operation
  vnet_io_write n message =
      let addr = bit_and message.addr vnet_offset_mask in
      if leb mmio.config addr then Result.ok n else perform_operation n addr (u32 message.value)

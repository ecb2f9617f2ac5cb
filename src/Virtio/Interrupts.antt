-- ===== src/Virtio/Interrupts.antt =====
-- VirtioBlk.cpp and CIU.cpp: the interrupt of the block device, from the status register to the
-- cores.
use type_ii_hypervisor_code.Common.{
  ℕ, ◌+◌, ◌-◌, ◌*◌, ◌^◌, ◌<◌, ◌≤◌, ◌≡◌, ◌≢◌, refl, ◌∙◌, bit_and, true, false, ◌&&◌, ==-eq-false,
  ==_refl, ltb, arith, Result,
}
use type_ii_hypervisor_code.Word.{bit}
use type_ii_hypervisor_code.Word.Bits.{bit-and, bit-not, bit-zero, eq_of_bits}
use type_ii_hypervisor_code.Cp0.{slot, is_interrupt_pending}
use type_ii_hypervisor_code.Cp0.Modes.{cause_of, status_of, Enabled}
use type_ii_hypervisor_code.Ciu.Registers.{int_sum0, int_en0}
use type_ii_hypervisor_code.Ciu.Broadcast.{generate_interrupt-pending, clear_interrupt-quiet}
use type_ii_hypervisor_code.MemoryMap.{Mmap}
use type_ii_hypervisor_code.Vhost.{GuestRings}
use type_ii_hypervisor_code.Virtio.Disk.{
  Mmio, VirtioBlk, update_interrupt, ack_interrupt, raise_interrupt, perform_operation,
  vnet_io_write,
}
use type_ii_hypervisor_code.Virtio.Rings.{Ascending, vnet_io_write-offset}

-- All bits of a word taken away.
and-own_complement : (x : ℕ) → x < 2 ^ 32 → bit_and x (2 ^ 32 - 1 - x) ≡ 0
and-own_complement x h =
    eq_of_bits _ _ (λ i. rw (bit-and, bit-not 32 x i h, bit-zero) (ground arith))

ack_interrupt-status :
    {Vring : Type 0} (b : VirtioBlk Vring)
    → b.device.interrupt_status < 2 ^ 32
    → (ack_interrupt b b.device.interrupt_status).device.interrupt_status ≡ 0
unfolding ack_interrupt update_interrupt
ack_interrupt-status b word = and-own_complement b.device.interrupt_status word

module _ {Vring : Type 0} (b : VirtioBlk Vring) (core : ℕ) (used : core < b.ciu.num_cores)
    (cores : b.ciu.num_cores ≤ 12) (cause : cause_of (b.ciu.cores core) < 2 ^ 64) where
  raise_interrupt-pending :
      (swap : ℕ → ℕ) (int_vring : ℕ)
      → 0 < swap int_vring
      → bit (b.ciu.memory (int_en0 (core * 2))) 16 ≡ true
      → bit (status_of (b.ciu.cores core)) 10 ≡ true
      → Enabled (status_of (b.ciu.cores core))
      → is_interrupt_pending ((raise_interrupt swap int_vring b).ciu.cores core) ≡ true
  unfolding raise_interrupt update_interrupt
  raise_interrupt-pending swap int_vring some_bit line unmasked takes =
      let on : ltb 0 (swap int_vring) ≡ true = ground arith in
      rw on (
        generate_interrupt-pending b.ciu core 16 used cores (omega arith) cause line unmasked takes)

  ack_interrupt-quiet :
      (j : ℕ)
      → b.device.interrupt_status < 2 ^ 32
      → ((i : ℕ)
          → i ≢ 16
          → bit (b.ciu.memory (int_sum0 (core * 2))) i && bit (b.ciu.memory (int_en0 (core * 2))) i
            ≡ false)
      → j ≢ slot 13 0
      → let after = ack_interrupt b b.device.interrupt_status in
        (after.device.interrupt_status ≡ 0)
        × (bit (cause_of (after.ciu.cores core)) 10 ≡ false)
        × (after.ciu.cores core j ≡ b.ciu.cores core j)
  unfolding ack_interrupt update_interrupt
  ack_interrupt-quiet j word alone away =
      let none = and-own_complement b.device.interrupt_status word in
      let (ip2, rest) =
        clear_interrupt-quiet b.ciu core 16 j used cores (omega arith) cause alone away in
      rw none (refl, ip2, rest)

module _ {Vring : Type 0} (negative : ℕ) (mmap : Mmap) (vring_init : ℕ → ℕ → ℕ → Vring)
    (rings : GuestRings Vring) (swap : ℕ → ℕ) (mmio : Mmio) where
  perform_operation-interrupt_ack :
      (b : VirtioBlk Vring) (value : ℕ)
      → Ascending mmio
      → perform_operation negative mmap vring_init rings swap mmio b mmio.interrupt_ack value
        ≡ Result.ok (ack_interrupt b value)
  unfolding perform_operation Ascending
  perform_operation-interrupt_ack b value order =
      let (a, c, d, e, f, g, h, i, j, k) = order in
      let n = mmio.interrupt_ack in
      let one = ==-eq-false n mmio.guest_features (omega arith) in
      let two = ==-eq-false n mmio.guest_features_sel (omega arith) in
      let three = ==-eq-false n mmio.queue_sel (omega arith) in
      let four = ==-eq-false n mmio.queue_num (omega arith) in
      let five = ==-eq-false n mmio.queue_align (omega arith) in
      let six = ==-eq-false n mmio.queue_pfn (omega arith) in
      let seven = ==-eq-false n mmio.queue_notify (omega arith) in
      rw (one, two, three, four, five, six, seven, ==_refl n) refl

  -- For a core in use that takes interrupts on IP2 and for which the line of the disk is enabled,
  -- with at most 12 cores, a 64-bit Cause and no other line that is raised and enabled for it: when
  -- the disk has served a request, the core has an interrupt pending; and when the guest writes the
  -- word of the status register to the acknowledgement register, the status is 0 and IP2 is clear.
  pub vnet_io_write-ack :
      (b : VirtioBlk Vring) (core base int_vring : ℕ)
      → Ascending mmio
      → core < b.ciu.num_cores
      → b.ciu.num_cores ≤ 12
      → cause_of (b.ciu.cores core) < 2 ^ 64
      → 0 < swap int_vring
      → bit (b.ciu.memory (int_en0 (core * 2))) 16 ≡ true
      → bit (status_of (b.ciu.cores core)) 10 ≡ true
      → Enabled (status_of (b.ciu.cores core))
      → b.device.interrupt_status < 2 ^ 32
      → ((i : ℕ)
          → i ≢ 16
          → bit (b.ciu.memory (int_sum0 (core * 2))) i && bit (b.ciu.memory (int_en0 (core * 2))) i
            ≡ false)
      → (is_interrupt_pending ((raise_interrupt swap int_vring b).ciu.cores core) ≡ true)
        × (b' : VirtioBlk Vring) × (vnet_io_write negative mmap vring_init rings swap mmio b
              (record {
                addr = base * 2 ^ 9 + mmio.interrupt_ack;
                value = b.device.interrupt_status;
                rw = 1;
              })
            ≡ Result.ok b')
        × (b'.device.interrupt_status ≡ 0)
        × (bit (cause_of (b'.ciu.cores core)) 10 ≡ false)
  unfolding Ascending
  vnet_io_write-ack b core base int_vring order used cores cause served line unmasked takes word
        alone =
      let (a, c, d, e, f, g, h, i, j, k) = order in
      (
        raise_interrupt-pending b core used cores cause swap int_vring served line unmasked takes,
        ack_interrupt b b.device.interrupt_status,
        vnet_io_write-offset negative mmap vring_init rings swap mmio b base mmio.interrupt_ack
              b.device.interrupt_status (omega arith) (omega arith) word
            ∙ perform_operation-interrupt_ack b b.device.interrupt_status order,
        ack_interrupt-status b word,
        (ack_interrupt-quiet b core used cores cause 0 word alone (omega arith)).1,
      )

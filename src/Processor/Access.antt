-- ===== src/Processor/Access.antt =====
-- Processor_IPE.cpp, `handleLDST`: a load or a store of the emitted code whose address is not in
-- the cache of addresses. `trans_addr` is the address that the emitted code then uses.
use type_ii_hypervisor_code.Common.{
  ℕ, ◌≡◌, refl, sym, ◌∙◌, ◌+◌, ◌*◌, ◌/◌, ◌^◌, ◌<◌, ◌==◌, Bool, true, false, if◌then◌else◌, Result,
  and_then, arith,
}
use type_ii_hypervisor_code.Word.{bit, has}
use type_ii_hypervisor_code.Word.Bits.{bit-shr}
use type_ii_hypervisor_code.Word.Masks.{and-pow_two}
use type_ii_hypervisor_code.Context.{Context, get_ldst, get_write_data}
use type_ii_hypervisor_code.MemoryMap.{Regions, Mmap}
use type_ii_hypervisor_code.Io.{
  DeviceMessageBox, IoManager, is_io_addr, io_gva_to_hva, ciu_id, ciu_base_addr,
}
use type_ii_hypervisor_code.Io.Devices.{ciu_store}
use type_ii_hypervisor_code.Processor.{Processor, addr_translation, set_pc}
use type_ii_hypervisor_code.Processor.Blocks.{fetch_next_block}

-- A core, the devices, and the two words that the emitted code shares with the handler.
pub record Access : Type 0 where
  pub core : Processor
  pub io : IoManager
  pub trans_addr : ℕ
  pub ll_bit : ℕ

module _ (negative : ℕ) (mmap : Mmap) (memory : ℕ → ℕ) (fuel : ℕ) where
  abbrev pub io_access : Access → ℕ × IoManager × Regions → Result Access
  io_access a (hva, io, regions) =
      Result.ok (record a { core = record a.core { regions = regions }; io = io; trans_addr = hva })

  -- Without a translation `hva` is the address of an exception handler.
  abbrev pub memory_access : Access → Bool × ℕ × Processor → Result Access
  memory_access a (true, hva, p) = Result.ok (record a { core = p; trans_addr = hva })
  memory_access a (false, hva, p) =
      if hva == 0
      then Result.exited
      else and_then (fetch_next_block negative mmap memory fuel (set_pc p hva))
          (λ p'. Result.ok (record a { core = p'; ll_bit = 0 }))

  unfoldable pub handle_ldst : Access → ℕ → Result Access
  handle_ldst a addr =
      if is_io_addr addr
      then and_then (io_gva_to_hva negative mmap a.io a.core.regions addr a.core.context)
          (io_access a)
      else and_then (addr_translation negative mmap a.core addr) (memory_access a)

is_io_addr-ciu : (offset : ℕ) → offset < 0x6d40 → is_io_addr (ciu_base_addr + offset) ≡ true
unfolding is_io_addr has bit
is_io_addr-ciu offset h =
    let x = ciu_base_addr + offset in
    let top : x / 2 ^ 62 ≡ 2 = omega (arith, h) in
    let field : x / 2 ^ 48 ≡ 0x8001 = omega (arith, h) in
    let one : bit x 48 ≡ true = sym (bit-shr x 48 0) ∙ rw field refl in
    rw (top, and-pow_two 48 x, one) refl

module _ (negative : ℕ) (mmap : Mmap) (memory : ℕ → ℕ) (fuel : ℕ) where
  -- With the registers of the interrupt unit on a host page of 32 KiB and its last message served, a
  -- store to one of them sends the unit the address, the word and the kind of the access, and is
  -- made at the same offset from the host page.
  handle_ldst-ciu :
      (a : Access) (offset base : ℕ)
      → offset < 0x6d40
      → a.io.device_hva ciu_id ≡ base * 2 ^ 15
      → get_ldst a.core.context ≡ 1
      → a.io.is_serviced ciu_id ≡ true
      → handle_ldst negative mmap memory fuel a (ciu_base_addr + offset)
        ≡ Result.ok (record a {
          io = record a.io {
            message_box = λ i.
                if i == ciu_id
                then record {
                  addr = ciu_base_addr + offset;
                  value = get_write_data a.core.context;
                  rw = 1;
                }
                else a.io.message_box i;
            is_serviced = λ i. if i == ciu_id then false else a.io.is_serviced i;
          };
          trans_addr = base * 2 ^ 15 + offset;
        })
  unfolding handle_ldst and_then
  handle_ldst-ciu a offset base h place store ready =
      rw
        (
          is_io_addr-ciu offset h,
          ciu_store negative mmap a.io a.core.regions offset base a.core.context h place store
              ready,
        )
        refl

-- The last message of a device, which it has not served.
abbrev Pending : DeviceMessageBox → ℕ → IoManager → Type 0
Pending message id io = (io.message_box id ≡ message) × (io.is_serviced id ≡ false)

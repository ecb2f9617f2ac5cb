-- ===== src/Io.antt =====
-- IOManager.h and IOManager.cpp: which device an access goes to, the message that the device is
-- sent, and the host address of the register. A core waits in a loop
-- until the device has served its last message: the outcome is then `waiting`. The lock and the
-- condition variable of a box are left out, and one core at a time is in this code: the test of
-- `isServiced` and its reset are not atomic in the source. The network
-- device is compiled in only with ENABLE_VNET, and is left out.
pub mod Devices
use type_ii_hypervisor_code.Common.{
  ℕ, ◌/◌, ◌^◌, ◌<◌, bit_and, bit_or, if◌then◌else◌, Bool, true, false, not, ◌&&◌, ◌==◌, ltb, leb,
  Option, none, some, Result, and_then,
}
use type_ii_hypervisor_code.Word.{shr, has}
use type_ii_hypervisor_code.Context.{Context, access_write, get_ldst, get_write_data}
use type_ii_hypervisor_code.Mmu.{gva_to_gpa_for_fileloading}
use type_ii_hypervisor_code.AddrCache.{Cache, check_cache, update_cache}
use type_ii_hypervisor_code.MemoryMap.{Regions, Mmap, gpa_to_hva}

abbrev pub uart_id : ℕ
uart_id = 0

abbrev pub ciu_id : ℕ
ciu_id = 1

abbrev pub vblk_id : ℕ
vblk_id = 2

abbrev pub io_mask : ℕ
io_mask = 0x0001_0000_0000_0000

abbrev pub uart_offset_mask : ℕ
uart_offset_mask = 0x07ff

abbrev pub ciu_offset_mask : ℕ
ciu_offset_mask = 0x7fff

abbrev pub vnet_offset_mask : ℕ
vnet_offset_mask = 0x1ff

abbrev pub uart0_base_addr : ℕ
uart0_base_addr = 0x8001_1800_0000_0800

abbrev pub uart1_end_addr : ℕ
uart1_end_addr = 0x8001_1800_0000_0c90

abbrev pub ciu_base_addr : ℕ
ciu_base_addr = 0x8001_0700_0000_0000

abbrev pub ciu_end_addr : ℕ
ciu_end_addr = 0x8001_0700_0000_6d40

abbrev pub vblk_base_addr : ℕ
vblk_base_addr = 0x9001_1800_7000_0200

abbrev pub vblk_end_addr : ℕ
vblk_end_addr = 0x9001_1800_7000_0320

pub record DeviceMessageBox : Type 0 where
  pub addr : ℕ
  pub value : ℕ
  pub rw : ℕ

pub record IoManager : Type 0 where
  pub ioaddr_cache : Cache
  pub message_box : ℕ → DeviceMessageBox
  pub is_serviced : ℕ → Bool  -- of `MessageBox`
  pub device_hva : ℕ → ℕ

-- Bit 49 of an address of the unmapped region.
unfoldable pub is_io_addr : ℕ → Bool
unfolding has
is_io_addr addr = shr addr 62 == 2 && has addr io_mask

-- Only the thread of the device ends the loop.
unfoldable pub update_message_box : IoManager → ℕ → ℕ → Context → Result IoManager
unfolding get_ldst get_write_data
update_message_box io id addr context =
    if not (io.is_serviced id)
    then Result.waiting
    else Result.ok (record io {
      message_box = λ i.
          if i == id
          then record { addr = addr; value = get_write_data context; rw = get_ldst context }
          else io.message_box i;
      is_serviced = λ i. if i == id then false else io.is_serviced i;
    })

-- A read sends no message, but waits as a write does.
abbrev pub on_write : IoManager → ℕ → ℕ → Context → Result IoManager
on_write io id gva context =
    if get_ldst context == access_write
    then update_message_box io id gva context
    else if not (io.is_serviced id)
    then Result.waiting
    else Result.ok io

-- The end of `start` of a device, when it has served its message.
unfoldable pub serviced : IoManager → ℕ → IoManager
serviced io id = record io { is_serviced = λ i. if i == id then true else io.is_serviced i }

-- An address, the manager and the memory map afterwards.
abbrev pub IoAnswer : Type 0
IoAnswer = Result (ℕ × IoManager × Regions)

module _ (negative : ℕ) (mmap : Mmap) where
  -- `GVAtoHVA_for_fileloading`, whose result is not looked at: without a translation `*HVA` stays.
  abbrev pub file_hva : Regions → ℕ → Option ℕ → Result (ℕ × Regions)
  file_hva r old none = Result.ok (old, r)
  file_hva r old (some gpa) = gpa_to_hva negative mmap r gpa

  abbrev pub other_device : IoManager → Regions → ℕ → Bool × ℕ → IoAnswer
  other_device io r gva (true, hva) = Result.ok (hva, io, r)
  other_device io r gva (false, hva) =
      and_then (file_hva r hva (gva_to_gpa_for_fileloading gva)) (λ a.
        Result.ok (
          a.0,
          record io { ioaddr_cache = update_cache io.ioaddr_cache gva a.0 access_write },
          a.1,
        ))

  unfoldable pub io_gva_to_hva : IoManager → Regions → ℕ → Context → IoAnswer
  unfolding update_message_box get_ldst
  io_gva_to_hva io r gva context =
      if leb ciu_base_addr gva && ltb gva ciu_end_addr
      then and_then (on_write io ciu_id gva context)
          (λ io'. Result.ok (bit_or (io.device_hva ciu_id) (bit_and gva ciu_offset_mask), io', r))
      else if leb uart0_base_addr gva && ltb gva uart1_end_addr
      then and_then (update_message_box io uart_id gva context)
          (λ io'. Result.ok (bit_or (io.device_hva uart_id) (bit_and gva uart_offset_mask), io', r))
      else if leb vblk_base_addr gva && leb gva vblk_end_addr
      then and_then (on_write io vblk_id gva context)
          (λ io'. Result.ok (bit_or (io.device_hva vblk_id) (bit_and gva vnet_offset_mask), io', r))
      else other_device io r gva (check_cache io.ioaddr_cache gva context)

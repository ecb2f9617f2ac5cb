-- ===== src/Io/Devices.antt =====
-- IOManager.cpp: the place that a register of the interrupt unit has on the host.
use type_ii_hypervisor_code.Common.{
  ℕ, ◌≡◌, refl, ◌∙◌, ◌+◌, ◌*◌, ◌^◌, ◌==◌, ◌<◌, true, if◌then◌else◌, Result, and_then, false,
  bit_and, bit_or, ltb, leb, arith,
}
use type_ii_hypervisor_code.Word.Masks.{and-low_mask}
use type_ii_hypervisor_code.Word.Fields.{or_add}
use type_ii_hypervisor_code.Context.{Context, get_ldst, get_write_data}
use type_ii_hypervisor_code.MemoryMap.{Regions, Mmap}
use type_ii_hypervisor_code.Io.{IoManager, io_gva_to_hva, update_message_box, ciu_id, ciu_base_addr}

ciu_place :
    (base offset : ℕ)
    → offset < 2 ^ 15
    → bit_or (base * 2 ^ 15) (bit_and (ciu_base_addr + offset) 0x7fff) ≡ base * 2 ^ 15 + offset
ciu_place base offset h =
    let low : bit_and (ciu_base_addr + offset) 0x7fff ≡ offset =
      and-low_mask 15 (ciu_base_addr + offset) ∙ omega (arith, h) in
    rw low (or_add 15 base offset h)

-- With the registers of the interrupt unit on a host page of 32 KiB, a store to one of them, when the unit
-- has served its last message, puts
-- the address, the word and the kind of the access into the message box of the unit, leaves the
-- other boxes, and answers the place at the same offset from the host page.
pub ciu_store :
    (negative : ℕ) (mmap : Mmap) (io : IoManager) (r : Regions) (offset base : ℕ)
    (context : Context)
    → offset < 0x6d40
    → io.device_hva ciu_id ≡ base * 2 ^ 15
    → get_ldst context ≡ 1
    → io.is_serviced ciu_id ≡ true
    → io_gva_to_hva negative mmap io r (ciu_base_addr + offset) context
      ≡ Result.ok (
        base * 2 ^ 15 + offset,
        record io {
          message_box = λ i.
              if i == ciu_id
              then record { addr = ciu_base_addr + offset; value = get_write_data context; rw = 1 }
              else io.message_box i;
          is_serviced = λ i. if i == ciu_id then false else io.is_serviced i;
        },
        r,
      )
unfolding io_gva_to_hva update_message_box and_then
ciu_store negative mmap io r offset base context h place store ready =
    let small : offset < 2 ^ 15 = omega (arith, h) in
    let low : leb ciu_base_addr (ciu_base_addr + offset) ≡ true = ground arith in
    let high : ltb (ciu_base_addr + offset) 0x8001_0700_0000_6d40 ≡ true = ground arith in
    rw (low, high, place, store, ready, ciu_place base offset small) refl

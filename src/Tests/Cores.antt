-- ===== src/Tests/Cores.antt =====
-- The processor's requests at concrete inputs.
use type_ii_hypervisor_code.Common.{
  ℕ, ◌^◌, ◌≡◌, ◌==◌, ◌++◌, ◌+◌, ◌*◌, ◌-◌, ◌%◌, ◌<◌, ◌≢◌, ◌↔◌, ◌&&◌, ltb, refl, arith, true, false,
  some, none, List, [], ◌∷◌, length, if◌then◌else◌, Result,
}
use type_ii_hypervisor_code.Cp0.{Regs, read, get_ksu}
use type_ii_hypervisor_code.Context.{Context, get_ldst, get_prot, set_prot}
use type_ii_hypervisor_code.Mmu.{
  gva_to_gpa, verify_priviliges, look_static_translation, look_static_translation_32bit,
  find_address_space_size, get_segment_number, translate,
}
use type_ii_hypervisor_code.AddrCache.{Cache, check_cache, update_cache, get_cache_index}
use type_ii_hypervisor_code.MemoryMap.{
  Regions, Mmap, gpa_to_hva, get_base_and_offset, translate_gpa_to_hva,
}
use type_ii_hypervisor_code.Block.{BlockCache, new_block}
use type_ii_hypervisor_code.Instr.{IInfo, parse}
use type_ii_hypervisor_code.Processor.{
  Processor, termination_ins, gva_to_hva, after_mmu, after_cache, addr_translation, set_regs,
}
use type_ii_hypervisor_code.Processor.Blocks.{fix_block, take_instr}
use type_ii_hypervisor_code.Processor.Requests.{tlb_write_i, tlb_write, handle_asid_change}
use type_ii_hypervisor_code.Processor.Cached.{addr_translation_again, requests-forget}
use type_ii_hypervisor_code.Processor.Access.{Access}
use type_ii_hypervisor_code.Timers.{reset_timer}
use type_ii_hypervisor_code.Timers.Waits.{reset_timer_lem}
use type_ii_hypervisor_code.Processor.Pages.{fix_block-terminates}

abbrev pub no_map : Mmap
no_map n size = none

-- Memory at the host address 0x7f00_0000_0000.
abbrev pub memory : Regions
memory = record {
  gpa_map = λ k.
      if k == 0 then some (record { hva = 0x7f00_0000_0000; size = 2 ^ 28; map_idx = 0 }) else none;
  calls = 0;
}

abbrev blocks : BlockCache
blocks = record {
  cache = λ i j. record { key = 0; block_end_pc = 0; block = new_block; asid = 0 };
  first_index = 0;
  second_index = 0;
}

abbrev empty : Cache
empty = λ i. record { gva = 1; hva = 0; prot = 0 }

-- A core in kernel mode that reads.
abbrev pub core : Processor
core = record {
  tlb = record {
    regs = λ r. 0;
    entry = λ i. record {
      pagemask = 0;
      entry_hi = 0;
      entry_lo0 = 0;
      entry_lo1 = 0;
      vpn = 0;
      asid = 0;
      region = 0;
      global = 0;
      validity = 0;
      c0 = 0;
      c1 = 0;
      v0 = 0;
      v1 = 0;
      d0 = 0;
      d1 = 0;
      pfn0 = 0;
      pfn1 = 0;
    };
  };
  addr_cache = empty;
  context = record { loadstore = 0; pc = 0xffff_ffff_8000_0000; write_data = 0 };
  regions = memory;
  cache_blk = blocks;
  asid = 1;
  nmi = false;
  control_mark = 1;
  block_start = 0;
  block_end = 0;
  cvmseg_base = 0;
  last_intrpt_time = 0;
}

-- The address 0x8000_0010 of kseg0, translated by the MMU.
abbrev address : ℕ
address = 0xffff_ffff_8000_0010

-- The core after the first translation: the line of the page is filled, with the right to write.
abbrev filled : Processor
filled = record core {
  addr_cache = update_cache empty address 0x7f00_0000_0010 1;
  context = record { loadstore = 1; pc = 0xffff_ffff_8000_0000; write_data = 0 };
}

-- User mode.
abbrev user : Regs
user r = if r == 96 then 16 else 0

abbrev reading : Context
reading = record { loadstore = 0; pc = 0x1000; write_data = 0 }

addr_translation_again_example :
    let later = record (set_regs filled user) { context = reading } in
    addr_translation 0 no_map later address ≡ Result.ok (true, 0x7f00_0000_0010, later)
unfolding set_prot addr_translation after_cache gva_to_hva after_mmu check_cache get_cache_index
    get_ldst get_prot gva_to_gpa verify_priviliges get_ksu find_address_space_size
    get_segment_number look_static_translation look_static_translation_32bit translate gpa_to_hva
    get_base_and_offset translate_gpa_to_hva
addr_translation_again_example =
    addr_translation_again 0 no_map core filled
      (record (set_regs filled user) { context = reading }) address 0x7f00_0000_0010 (omega arith)
      refl refl (omega arith) refl (omega arith)

requests-forget_example :
    ((check_cache (tlb_write_i filled).addr_cache address reading).0 ≡ false)
    × ((check_cache (tlb_write filled 7).addr_cache address reading).0 ≡ false)
    × ((check_cache (handle_asid_change filled).addr_cache address reading).0 ≡ false)
unfolding read
requests-forget_example = requests-forget filled 7 address reading (omega arith) (λ h. omega arith)

-- addiu, beq, nop, nop, from the last two words of a page on: the branch is on the next page.
abbrev four : List IInfo
four = parse 0x2442_0001 ∷ parse 0 ∷ parse 0x1043_0005 ∷ parse 0 ∷ []

fix_block-terminates_example :
    fix_block 0 no_map (λ a. 0) core four 0x1ff8 0x2000
    ≡ Result.ok (take_instr 2 four ++ parse termination_ins ∷ parse 0 ∷ [], core)
unfolding length
fix_block-terminates_example =
    fix_block-terminates 0 no_map (λ a. 0) core four 0x1ff8 (omega arith) (omega arith)
      (λ h. omega arith)

-- A core that stores 1; of the devices only the serial port has served its last message.
abbrev pub storing : Access
storing = record {
  core = record core { context = record { loadstore = 1; pc = 0x1000; write_data = 1 } };
  io = record {
    ioaddr_cache = empty;
    message_box = λ i. record { addr = 0x100; value = 5; rw = 1 };
    is_serviced = λ i. i == 0;
    device_hva = λ i. 2 ^ 40;
  };
  trans_addr = 0;
  ll_bit = 1;
}

-- Count is 5 and Compare 100000005.
abbrev a_second : Regs
a_second r = if r == 72 then 5 else if r == 88 then 100_000_005 else 0

reset_timer_lem_example :
    let timeout = reset_timer a_second in
    (timeout.tv_sec * 1_000_000_000 + timeout.tv_nsec
      ≡ (if ltb 0 100_000_000 && ltb 100_000_000 (2 ^ 31)
          then 100_000_000
          else (100_000_000 + 2 ^ 32 - 1) % 2 ^ 32)
        * 10)
    × ((timeout.tv_nsec < 1_000_000_000) ↔ (◌≢◌ {A = ℕ} 100_000_000 100_000_000))
unfolding read
reset_timer_lem_example = reset_timer_lem a_second 100_000_000 (omega arith) refl

-- ===== src/Processor.antt =====
-- Processor_IPE.h and Processor_IPE.cpp, with `GVAtoHVA` of GVAtoHVATranslation_IPE.cpp: the requests
-- that the emitted code makes of the processor. Timers and logs are not part of this state.
-- `context` holds what the pointers LDST, pc and uartData point to; `tlb` holds coprocessor 0.
-- `memory` is host memory, read by words. `fetched` runs on fuel; when the fuel runs out, the
-- source reads on without end, and the outcome is `undefined`.
pub mod Blocks
pub mod Requests
pub mod Cached
pub mod Pages
pub mod Access
use type_ii_hypervisor_code.Common.{
  ℕ, ◌+◌, ◌-◌, ◌*◌, ◌/◌, ◌%◌, ◌^◌, bit_and, bit_or, if◌then◌else◌, Bool, true, false, not, ◌&&◌,
  ◌==◌, ltb, Option, none, some, List, [], ◌∷◌, ◌++◌, map, length, Result, and_then,
}
use type_ii_hypervisor_code.Word.{add64, sub64, not64}
use type_ii_hypervisor_code.Cp0.{read, write, get_ksu}
use type_ii_hypervisor_code.Context.{Context, access_read, get_prot}
use type_ii_hypervisor_code.Exception.{perform_exception, scall, trap, exc_int}
use type_ii_hypervisor_code.Tlb.{Tlb, Translated, tlb_write_index, tlb_random, tlb_read, tlb_probe}
use type_ii_hypervisor_code.Mmu.{gva_to_gpa}
use type_ii_hypervisor_code.AddrCache.{Cache, check_cache, update_cache, clear_cache}
use type_ii_hypervisor_code.MemoryMap.{Regions, Mmap, gpa_to_hva}
use type_ii_hypervisor_code.Block.{
  BlockCache, CacheVal, TranslationBlock, push_back, current, set_current, does_exist,
  get_container, put_in_cache,
}
use type_ii_hypervisor_code.Instr.{IInfo, parse}
use type_ii_hypervisor_code.Instr.Fetch.{get_block}
use type_ii_hypervisor_code.Emit.{HostIns, encode}
use type_ii_hypervisor_code.Translate.{do_block_translation}
use type_ii_hypervisor_code.Layout.{control_from_end_of_block}

pub record Processor : Type 0 where
  pub tlb : Tlb
  pub addr_cache : Cache
  pub context : Context
  pub regions : Regions
  pub cache_blk : BlockCache
  pub asid : ℕ
  pub nmi : Bool
  pub control_mark : ℕ
  pub block_start : ℕ
  pub block_end : ℕ
  pub cvmseg_base : ℕ
  pub last_intrpt_time : ℕ

-- A flag, an address and the processor afterwards.
abbrev pub Answer : Type 0
Answer = Result (Bool × ℕ × Processor)

abbrev pub cvmseg_mask : ℕ
cvmseg_mask = 0xffff_ffff_ffff_c000

abbrev pub cvmseg_base_addr : ℕ
cvmseg_base_addr = 0xffff_ffff_ffff_8000

abbrev pub mips_rest_vec : ℕ
mips_rest_vec = 0xffff_ffff_bfc0_0000

abbrev pub termination_ins : ℕ
termination_ins = 0xec00_0000

abbrev pub brk : ℕ
brk = 9

abbrev pub ri : ℕ
ri = 10

abbrev pub ov : ℕ
ov = 12

abbrev pub set_regs : Processor → (ℕ → ℕ) → Processor
set_regs p regs = record p { tlb = record p.tlb { regs = regs } }

abbrev pub set_pc : Processor → ℕ → Processor
set_pc p pc = record p { context = record p.context { pc = pc } }

-- A translation that succeeds goes to the cache.
abbrev pub remember : ℕ → Bool × ℕ × Processor → Answer
remember gva (true, hva, p) =
    Result.ok
      (true, hva, record p { addr_cache = update_cache p.addr_cache gva hva (get_prot p.context) })
remember gva (false, hva, p) = Result.ok (false, hva, p)

module _ (negative : ℕ) (mmap : Mmap) where
  -- What the MMU gave.
  unfoldable pub after_mmu : Processor → Option Translated → Answer
  after_mmu p none = Result.exited
  after_mmu p (some t) =
      let p' = record (set_regs p t.regs) { context = t.context } in
      if t.ok
      then and_then (gpa_to_hva negative mmap p.regions t.address)
          (λ a. Result.ok (true, a.0, record p' { regions = a.1 }))
      else Result.ok (false, t.address, p')

  unfoldable pub gva_to_hva : Processor → ℕ → Answer
  unfolding after_mmu
  gva_to_hva p gva = after_mmu p (gva_to_gpa p.tlb gva p.context)

  -- What the cache gave decides whether anything else is asked.
  unfoldable pub after_cache : Processor → ℕ → Bool × ℕ → Answer
  unfolding gva_to_hva
  after_cache p gva (true, hva) = Result.ok (true, hva, p)
  after_cache p gva (false, hva) =
      if bit_and gva cvmseg_mask == cvmseg_base_addr
      then Result.ok (true, add64 p.cvmseg_base (bit_and gva (not64 cvmseg_mask)), p)
      else and_then (gva_to_hva p gva) (remember gva)

  unfoldable pub addr_translation : Processor → ℕ → Answer
  unfolding after_cache
  addr_translation p gva = after_cache p gva (check_cache p.addr_cache gva p.context)

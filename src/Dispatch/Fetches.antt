-- ===== src/Dispatch/Fetches.antt =====
-- Processor_IPE.cpp: that the fetch of a block moves no guest memory.
use type_ii_hypervisor_code.Common.{
  ℕ, ◌-◌, length, ltb, ◌==◌, not, Bool, true, false, Option, none, some, List, Holds, Holds-all,
  Holds-if, and_then-Holds, bit_and,
}
use type_ii_hypervisor_code.MemoryMap.{Mmap}
use type_ii_hypervisor_code.Word.{not64}
use type_ii_hypervisor_code.Instr.{IInfo}
use type_ii_hypervisor_code.Processor.Blocks.{
  fix_block, valid_instr, translate_block, fetched, found_block, fetch_next_block,
}
use type_ii_hypervisor_code.Processor.{Processor, addr_translation}
use type_ii_hypervisor_code.Dispatch.Memory.{Core, Answered, addr_translation-At}
use type_ii_hypervisor_code.Cp0.{get_ksu}
use type_ii_hypervisor_code.Context.{access_read}
use type_ii_hypervisor_code.Word.{add64}
use type_ii_hypervisor_code.Block.{CacheVal, does_exist}
use type_ii_hypervisor_code.Instr.Fetch.{get_block}
use type_ii_hypervisor_code.Processor.Blocks.{words_at}
use type_ii_hypervisor_code.Processor.{set_pc}
use type_ii_hypervisor_code.Common.{◌*◌, ◌&&◌}

module _ (negative : ℕ) (mmap : Mmap) (memory : ℕ → ℕ) (fuel : ℕ) (key hva : ℕ) where
  fix_block-At :
      (p : Processor) (insts : List IInfo) (start last : ℕ)
      → Core key hva p
      → Holds (λ a. Core key hva a.1) (fix_block negative mmap memory p insts start last)
  unfolding fix_block
  fix_block-At p insts start last at =
      Holds-if (λ a. Core key hva a.1) (ltb 1 (length insts - valid_instr start last)) _ _ at
        (and_then-Holds (Answered key hva) (λ a. Core key hva a.1)
          (addr_translation negative mmap p (bit_and last (not64 0xfff))) _
          (addr_translation-At negative mmap key hva p (bit_and last (not64 0xfff)) at) (λ a h. h))

  translate_block-At :
      (p : Processor) (gva : ℕ) (insts : Option (List IInfo))
      → Core key hva p
      → Holds (Core key hva) (translate_block negative mmap memory p gva insts)
  unfolding translate_block
  translate_block-At p gva none at = tt
  translate_block-At p gva (some insts) at =
      and_then-Holds (λ a. Core key hva a.1) (Core key hva) _ _
        (Holds-if (λ a. Core key hva a.1)
          (not (get_ksu p.tlb.regs == 0)
            && not (
                bit_and gva (not64 0xfff)
                == bit_and (add64 gva ((length insts - 2) * 4)) (not64 0xfff)))
          _ _ (fix_block-At _ insts _ _ at) at)
        (λ a h.
          and_then-Holds (λ code. Unit) (Core key hva) _ _ (Holds-all _ _ (λ code. tt))
            (λ code u. h))

  fetched-At :
      (gva : ℕ) (a : Bool × ℕ × Processor)
      → Answered key hva a
      → Holds (Core key hva) (fetched negative mmap memory fuel gva a)
  fetched-At gva (true, h, p) at =
      translate_block-At p gva (get_block fuel (words_at negative mmap memory h) 0) at
  fetched-At gva (false, h, p) at =
      and_then-Holds (Answered key hva) (Core key hva)
        (addr_translation negative mmap (set_pc p h) h) _
        (addr_translation-At negative mmap key hva (set_pc p h) h at)
        (λ a k. translate_block-At a.2 h (get_block fuel (words_at negative mmap memory a.1) 0) k)

  found_block-At :
      (p : Processor) (found : Option CacheVal)
      → Core key hva p
      → Holds (Core key hva) (found_block negative mmap memory fuel p found)
  found_block-At p (some v) at = at
  found_block-At p none at =
      let p' = record p { context = record p.context { loadstore = access_read } } in
      and_then-Holds (Answered key hva) (Core key hva)
        (addr_translation negative mmap p' p.context.pc)
        (fetched negative mmap memory fuel p.context.pc)
        (addr_translation-At negative mmap key hva p' p.context.pc at) (fetched-At p.context.pc)

  pub fetch_next_block-At :
      (p : Processor)
      → Core key hva p
      → Holds (Core key hva) (fetch_next_block negative mmap memory fuel p)
  unfolding fetch_next_block
  fetch_next_block-At p at =
      let (cache, found) = does_exist p.cache_blk p.context.pc p.asid in
      found_block-At (record p { cache_blk = cache }) found at

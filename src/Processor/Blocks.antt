-- ===== src/Processor/Blocks.antt =====
-- Processor_IPE.cpp: the fetch of the next block, from the cache or by a new translation.
use type_ii_hypervisor_code.Common.{
  ℕ, zero, suc, ◌-◌, ◌*◌, ◌/◌, bit_and, if◌then◌else◌, Bool, true, false, not, ◌&&◌, ◌==◌, ltb,
  Option, none, some, List, [], ◌∷◌, ◌++◌, length, Result, and_then,
}
use type_ii_hypervisor_code.Word.{add64, sub64, not64}
use type_ii_hypervisor_code.Cp0.{get_ksu}
use type_ii_hypervisor_code.Context.{access_read}
use type_ii_hypervisor_code.MemoryMap.{Mmap}
use type_ii_hypervisor_code.Block.{
  CacheVal, TranslationBlock, push_back, current, set_current, does_exist, get_container,
  put_in_cache,
}
use type_ii_hypervisor_code.Instr.{IInfo, parse}
use type_ii_hypervisor_code.Instr.Fetch.{get_block}
use type_ii_hypervisor_code.Emit.{HostIns, encode}
use type_ii_hypervisor_code.Translate.{do_block_translation}
use type_ii_hypervisor_code.Processor.{Processor, addr_translation, termination_ins, set_pc}

-- `vector::erase` from an index on.
unfoldable pub take_instr : ℕ → List IInfo → List IInfo
take_instr zero insts = []
take_instr (suc n) [] = []
take_instr (suc n) (i ∷ insts) = i ∷ take_instr n insts

-- The words of a block, pushed into a container.
unfoldable pub push_all : TranslationBlock → List HostIns → TranslationBlock
push_all b [] = b
push_all b (w ∷ rest) = push_all (push_back b (encode w)) rest

-- `instVec` is left with the instructions before the last page. A block is short enough for the
-- `int` of the source to hold their number, which is below the size of the block.
unfoldable pub valid_instr : ℕ → ℕ → ℕ
valid_instr block_start block_end = sub64 (bit_and block_end (not64 0xfff)) block_start / 4

-- The block goes into its container and the container into the cache.
abbrev pub keep_code : Processor → ℕ → ℕ → List HostIns → Result Processor
keep_code p gva block_end code =
    let v = current p.cache_blk in
    let filled = set_current p.cache_blk (record v { block = push_all v.block code }) in
    Result.ok (record p { cache_blk = put_in_cache filled gva block_end p.asid })

module _ (negative : ℕ) (mmap : Mmap) (memory : ℕ → ℕ) where
  -- The delay slot, from the page of the end of the block, whether or not it was translated.
  abbrev pub read_slot : List IInfo → Bool × ℕ × Processor → Result (List IInfo × Processor)
  read_slot insts (found, hva, p) = Result.ok (insts ++ parse (memory hva) ∷ [], p)

  unfoldable pub fix_block : Processor → List IInfo → ℕ → ℕ → Result (List IInfo × Processor)
  unfolding valid_instr
  fix_block p insts block_start block_end =
      let valid = valid_instr block_start block_end in
      let kept = take_instr valid insts in
      if ltb 1 (length insts - valid)
      then Result.ok (kept ++ parse termination_ins ∷ parse 0 ∷ [], p)
      else and_then (addr_translation negative mmap p (bit_and block_end (not64 0xfff)))
          (read_slot kept)

  -- The rest of `fetchNextBlock` once the instructions are read.
  unfoldable pub translate_block : Processor → ℕ → Option (List IInfo) → Result Processor
  unfolding fix_block
  translate_block p gva none = Result.undefined
  translate_block p gva (some insts) =
      let block_end = add64 gva ((length insts - 2) * 4) in
      let p' = record p {
        block_start = gva;
        block_end = block_end;
        cache_blk = get_container p.cache_blk gva;
      } in
      let spans = not (bit_and gva (not64 0xfff) == bit_and block_end (not64 0xfff)) in
      and_then
        (if not (get_ksu p.tlb.regs == 0) && spans
          then fix_block p' insts gva block_end
          else Result.ok (insts, p'))
        (λ a. and_then (do_block_translation a.0 block_end) (keep_code a.1 gva block_end))

  -- The words at the host address `hva`.
  abbrev pub words_at : ℕ → ℕ → ℕ
  words_at hva i = memory (add64 hva (i * 4))

  -- After a failed translation `hva` is the address of an exception handler, which is translated
  -- in its turn, whatever comes of it.
  abbrev pub fetched : ℕ → ℕ → Bool × ℕ × Processor → Result Processor
  fetched fuel gva (true, hva, p) = translate_block p gva (get_block fuel (words_at hva) 0)
  fetched fuel gva (false, hva, p) =
      and_then (addr_translation negative mmap (set_pc p hva) hva)
        (λ a. translate_block a.2 hva (get_block fuel (words_at a.1) 0))

  abbrev pub found_block : ℕ → Processor → Option CacheVal → Result Processor
  found_block fuel p (some v) =
      Result.ok (record p { block_start = p.context.pc; block_end = v.block_end_pc })
  found_block fuel p none =
      let p' = record p { context = record p.context { loadstore = access_read } } in
      and_then (addr_translation negative mmap p' p.context.pc) (fetched fuel p.context.pc)

  unfoldable pub fetch_next_block : ℕ → Processor → Result Processor
  unfolding translate_block
  fetch_next_block fuel p =
      let (cache, found) = does_exist p.cache_blk p.context.pc p.asid in
      found_block fuel (record p { cache_blk = cache }) found

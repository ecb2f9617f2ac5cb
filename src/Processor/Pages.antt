-- ===== src/Processor/Pages.antt =====
-- `fixBlock`: blocks that go on to another page.
use type_ii_hypervisor_code.Common.{
  ℕ, ◌+◌, ◌-◌, ◌*◌, ◌/◌, ◌^◌, ◌≤◌, ◌<◌, ◌≡◌, ◌≢◌, List, ◌∷◌, [], ◌++◌, length, arith, ltb, true,
  bit_and, Result,
}
use type_ii_hypervisor_code.Word.{not64}
use type_ii_hypervisor_code.Word.Masks.{and-high_mask}
use type_ii_hypervisor_code.MemoryMap.{Mmap}
use type_ii_hypervisor_code.Instr.{IInfo, parse}
use type_ii_hypervisor_code.Processor.{Processor, termination_ins}
use type_ii_hypervisor_code.Processor.Blocks.{fix_block, take_instr, valid_instr}

page_start : (x : ℕ) → x < 2 ^ 64 → bit_and x (not64 0xfff) ≡ x / 4096 * 4096
page_start x h = and-high_mask 64 12 x (omega arith) h

-- The number of instructions in front of the last page.
pub valid_instr-eq :
    (start n : ℕ)
    → start + n * 4 < 2 ^ 64
    → start / 4096 ≢ (start + n * 4) / 4096
    → valid_instr start (start + n * 4) ≡ ((start + n * 4) / 4096 * 4096 - start) / 4
unfolding valid_instr
valid_instr-eq start n h spans = rw (page_start (start + n * 4) h) (ground arith)

-- For a block of at least two instructions that does not reach the end of the address space and
-- whose branch lies on another page than its start: the instructions from the last page on give
-- way to the terminating instruction, and the page of the delay slot is never translated.
pub fix_block-terminates :
    (negative : ℕ) (mmap : Mmap) (memory : ℕ → ℕ) (p : Processor) (insts : List IInfo) (start : ℕ)
    → 2 ≤ length insts
    → let block_end = start + (length insts - 2) * 4 in
      block_end < 2 ^ 64
      → start / 4096 ≢ block_end / 4096
      → fix_block negative mmap memory p insts start block_end
        ≡ Result.ok (
          take_instr ((block_end / 4096 * 4096 - start) / 4) insts
              ++ parse termination_ins ∷ parse 0 ∷ [],
          p,
        )
unfolding fix_block
fix_block-terminates negative mmap memory p insts start two h spans =
    let n = length insts - 2 in
    let valid = ((start + n * 4) / 4096 * 4096 - start) / 4 in
    let more : ltb 1 (length insts - valid) ≡ true = ground arith in
    rw (valid_instr-eq start n h spans) (rw more)

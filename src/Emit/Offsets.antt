-- ===== src/Emit/Offsets.antt =====
-- Where branches and jumps of the guest lead: what the emitted words put into the program counter,
-- and what the architecture asks for. The emitted words sign-extend their immediates.
use type_ii_hypervisor_code.Common.{
  ℕ, ◌+◌, ◌-◌, ◌*◌, ◌/◌, ◌%◌, ◌^◌, ◌≤◌, ◌<◌, ◌≡◌, ◌∙◌, ◌↔◌, ◌⊎◌, arith, ltb, if◌then◌else◌, bit_and,
  bit_or,
}
use type_ii_hypervisor_code.Word.{add64, sext32, shr}
use type_ii_hypervisor_code.Word.Masks.{and-low_mask, and_comm, and-field_mask}
use type_ii_hypervisor_code.Word.Fields.{or_add}
use type_ii_hypervisor_code.Instr.{IInfo}
use type_ii_hypervisor_code.Emit.Branches.{branch_offset}
use type_ii_hypervisor_code.Emit.Jumps.{jump_target}

-- A 16-bit immediate, sign-extended to 64 bits.
abbrev pub sext16 : ℕ → ℕ
sext16 x = let y = x % 2 ^ 16 in if ltb y (2 ^ 15) then y else 2 ^ 64 - 2 ^ 16 + y

-- The emitted code adds the offset to the address of the branch, by `daddi`.
abbrev pub emitted_target : ℕ → ℕ → ℕ
emitted_target pc imm = add64 pc (sext16 (branch_offset imm))

-- The delay slot's address plus four times the immediate.
abbrev pub guest_target : ℕ → ℕ → ℕ
guest_target pc imm = add64 (pc + 4) (sext16 imm * 4 % 2 ^ 64)

branch_offset-eq : (imm : ℕ) → branch_offset imm ≡ (imm * 4 + 4) % 2 ^ 16
unfolding branch_offset
branch_offset-eq imm = and_comm 0xffff (imm * 4 + 4) ∙ and-low_mask 16 (imm * 4 + 4)

-- The emitted code takes a branch to the address that the instruction names exactly if its offset
-- lies between -8193 and 8190 instructions.
pub branch_offset_iff :
    (pc imm : ℕ)
    → pc < 2 ^ 64
    → imm < 2 ^ 16
    → (emitted_target pc imm ≡ guest_target pc imm) ↔ ((imm ≤ 8190) ⊎ (57343 ≤ imm))
branch_offset_iff pc imm h k = ground (arith, branch_offset-eq imm)

jump_target-eq :
    (i : IInfo) (block_end : ℕ)
    → i.addr < 2 ^ 26
    → jump_target i block_end ≡ block_end / 2 ^ 28 % 2 ^ 4 * 2 ^ 28 + i.addr * 4
unfolding jump_target
jump_target-eq i block_end h =
    rw (and-field_mask 28 4 block_end)
      (or_add 28 (block_end / 2 ^ 28 % 2 ^ 4) (i.addr * 4) (omega arith))

-- `lui` and `ori` leave the sign-extended target.
abbrev pub emitted_jump : IInfo → ℕ → ℕ
emitted_jump i block_end =
    let t = jump_target i block_end in
    bit_or (sext32 (shr t 16 % 2 ^ 16 * 2 ^ 16)) (bit_and t 0xffff % 2 ^ 16)

-- The region of 2 ^ 28 bytes that the delay slot of the jump at `block_end` is in.
abbrev pub guest_jump : IInfo → ℕ → ℕ
guest_jump i block_end = add64 block_end 4 / 2 ^ 28 * 2 ^ 28 + i.addr * 4

lui_ori : (t : ℕ) → bit_or (sext32 (shr t 16 % 2 ^ 16 * 2 ^ 16)) (t % 2 ^ 16 % 2 ^ 16) ≡ sext32 t
lui_ori t =
    let hi = t / 2 ^ 16 % 2 ^ 16 in
    let s = if ltb hi (2 ^ 15) then hi else 2 ^ 48 - 2 ^ 16 + hi in
    let upper : sext32 (hi * 2 ^ 16) ≡ s * 2 ^ 16 = ground arith in
    rw (upper, or_add 16 s (t % 2 ^ 16 % 2 ^ 16) (omega arith)) (ground arith)

emitted_jump-eq :
    (i : IInfo) (block_end : ℕ)
    → i.addr < 2 ^ 26
    → emitted_jump i block_end ≡ sext32 (jump_target i block_end)
emitted_jump-eq i block_end h =
    let t = jump_target i block_end in rw (and-low_mask 16 t) (lui_ori t)

-- The emitted code jumps to the address that the instruction names exactly if the address of the
-- jump is sign-extended from 32 bits and its delay slot is in the same region of 2 ^ 28 bytes.
pub emitted_jump_iff :
    (i : IInfo) (block_end : ℕ)
    → i.addr < 2 ^ 26
    → block_end < 2 ^ 64
    → (emitted_jump i block_end ≡ guest_jump i block_end)
      ↔ (((block_end < 2 ^ 31) ⊎ (2 ^ 64 - 2 ^ 31 ≤ block_end)) × (block_end % 2 ^ 28 < 2 ^ 28 - 4))
emitted_jump_iff i block_end h k =
    ground (arith, emitted_jump-eq i block_end h, jump_target-eq i block_end h)

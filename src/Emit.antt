-- ===== src/Emit.antt =====
-- Translation_IPE.h and Translation_IPE.cpp: the words that are emitted for one instruction. A
-- routine of the source pushes words into a container; here it gives the list of them. A word is
-- kept as the fields that the source puts together, and `encode` makes the word. `printf` is left
-- out. The delay slot of a branch or jump is translated in the middle of its code: the
-- routine takes that code as an argument.
pub mod Control
pub mod Cop0
pub mod Mtc0
pub mod Traps
pub mod Arithmetic
pub mod Multiplier
pub mod Memory
pub mod Branches
pub mod Jumps
pub mod Encoding
pub mod Landing
pub mod Mtc0Landing
pub mod Offsets
pub mod Zero
use type_ii_hypervisor_code.Instr.{IInfo}
use type_ii_hypervisor_code.Layout.{
  opcode_ld, opcode_sd, base_reg, base_gp, base_cp, opcode_addiu, control_mark, c_label_reg,
  c_func_call_offset, opcode_zero, ret_addr_reg,
}
use type_ii_hypervisor_code.Common.{
  ℕ, ◌+◌, ◌*◌, ◌^◌, ◌%◌, bit_and, bit_or, Bool, false, List, [], ◌∷◌, ◌++◌, map,
}
use type_ii_hypervisor_code.Word.{u32}

-- The field that selects a register of coprocessor 0.
abbrev pub sel : IInfo → ℕ
sel i = bit_and i.func 0x07

pub data HostIns : Type 0 where
  i_word : ℕ → ℕ → ℕ → ℕ → HostIns  -- encodeI(op, rs, rt, imm)
  r_word : ℕ → ℕ → ℕ → ℕ → ℕ → ℕ → HostIns  -- encodeR(op, rs, rt, rd, sa, func)
  zero_word : HostIns

unfoldable pub encode_i : ℕ → ℕ → ℕ → ℕ → ℕ
encode_i op rs rt imm =
    bit_or
      (bit_or (bit_or (bit_and op 0x3f * 2 ^ 26) (bit_and rs 0x1f * 2 ^ 21))
        (bit_and rt 0x1f * 2 ^ 16))
      (bit_and imm 0xffff)

unfoldable pub encode_r : ℕ → ℕ → ℕ → ℕ → ℕ → ℕ → ℕ
encode_r op rs rt rd sa func =
    bit_or
      (bit_or
        (bit_or
          (bit_or (bit_or (bit_and op 0x3f * 2 ^ 26) (bit_and rs 0x1f * 2 ^ 21))
            (bit_and rt 0x1f * 2 ^ 16))
          (bit_and rd 0x1f * 2 ^ 11))
        (bit_and sa 0x1f * 2 ^ 6))
      (bit_and func 0x3f)

-- The word in the container.
unfoldable pub encode : HostIns → ℕ
unfolding encode_i encode_r
encode (HostIns.i_word op rs rt imm) = encode_i op rs rt imm
encode (HostIns.r_word op rs rt rd sa func) = encode_r op rs rt rd sa func
encode HostIns.zero_word = 0

-- LOG_GEN of Common.h is 0.
abbrev pub log_gen : Bool
log_gen = false

-- A word of the state of the core: the registers at `base_gp`, coprocessor 0 at `base_cp`.
abbrev pub load : ℕ → ℕ → HostIns
load t offset = HostIns.i_word opcode_ld base_reg t offset

abbrev pub store : ℕ → ℕ → HostIns
store t offset = HostIns.i_word opcode_sd base_reg t offset

abbrev pub load_gp : ℕ → ℕ → HostIns
load_gp t r = load t (base_gp + 8 * r)

abbrev pub store_gp : ℕ → ℕ → HostIns
store_gp t r = store t (base_gp + 8 * r)

abbrev pub load_cp : ℕ → ℕ → ℕ → HostIns
load_cp t r sel = load t (base_cp + 64 * r + 8 * sel)

abbrev pub store_cp : ℕ → ℕ → ℕ → HostIns
store_cp t r sel = store t (base_cp + 64 * r + 8 * sel)

-- The control mark, by way of the register t.
abbrev pub set_mark : ℕ → ℕ → List HostIns
set_mark t mark = HostIns.i_word opcode_addiu 0 t mark ∷ store t control_mark ∷ []

-- The call of the C++ code that comes back to this place.
abbrev pub call_c : List HostIns
call_c =
    load c_label_reg c_func_call_offset
    ∷ HostIns.r_word opcode_zero c_label_reg 0 ret_addr_reg 0 9
    ∷ HostIns.zero_word
    ∷ []

-- The jump to the C++ code that leaves the block.
abbrev pub leave : List HostIns
leave =
    load c_label_reg c_func_call_offset
    ∷ HostIns.r_word opcode_zero c_label_reg 0 0 0 8
    ∷ HostIns.zero_word
    ∷ []

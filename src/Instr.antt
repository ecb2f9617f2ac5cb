-- ===== src/Instr.antt =====
-- IInfo.h and IInfo.cpp: the fields of an instruction word. The constructor of IInfo clears all
-- fields before `parse` fills those of one format. The print functions are left out.
pub mod Fetch
use type_ii_hypervisor_code.Common.{
  ℕ, ◌+◌, ◌-◌, ◌^◌, bit_and, Bool, false, ◌&&◌, ◌||◌, ◌==◌, leb, ltb, if◌then◌else◌,
}
use type_ii_hypervisor_code.Word.{shr}

-- `enum TYPES`
pub data InsType : Type 0 where
  rtype itype jtype : InsType

-- The bits of `val` from number `start` to number `end`.
unfoldable pub ext_bits : ℕ → ℕ → ℕ → ℕ
ext_bits val start end = bit_and (shr val start) (2 ^ (end - start + 1) - 1)

-- IInfo, with the fields of its INSTRUCTION.
pub record IInfo : Type 0 where
  pub encoding : ℕ
  pub type : InsType
  pub is_control_inst : Bool
  pub opcode : ℕ
  pub rs : ℕ  -- of R
  pub rt : ℕ
  pub rd : ℕ
  pub shft : ℕ
  pub func : ℕ
  pub i_rs : ℕ  -- of I
  pub i_rt : ℕ
  pub imm : ℕ
  pub addr : ℕ  -- of j

unfoldable pub get_type : ℕ → InsType
get_type opcode =
    if opcode == 0 || (ltb 15 opcode && ltb opcode 20) || opcode == 31 || opcode == 28
    then InsType.rtype
    else if opcode == 2 || opcode == 3
    then InsType.jtype
    else InsType.itype

unfoldable pub is_cntrl_inst_r : IInfo → Bool
is_cntrl_inst_r i =
    let oc = i.opcode in
    let s = i.rs in
    let f = i.func in
    (oc == 0 && (f == 8 || f == 9))
    || ((oc == 16 || oc == 18) && s == 8)
    || (oc == 17 && (s == 8 || s == 9 || s == 10))

unfoldable pub is_cntrl_inst_i : IInfo → Bool
is_cntrl_inst_i i =
    let oc = i.opcode in
    let t = i.i_rt in
    (leb 4 oc && leb oc 7)
    || (leb 20 oc && leb oc 23)
    || oc == 50
    || oc == 54
    || oc == 58
    || oc == 62
    || (oc == 1 && (leb t 3 || (leb 16 t && leb t 19)))

unfoldable pub is_cntrl_inst_j : IInfo → Bool
is_cntrl_inst_j i = let oc = i.opcode in oc == 2 || oc == 3 || oc == 29

abbrev blank : ℕ → ℕ → InsType → IInfo
blank word opcode type = record {
  encoding = word;
  type = type;
  is_control_inst = false;
  opcode = opcode;
  rs = 0;
  rt = 0;
  rd = 0;
  shft = 0;
  func = 0;
  i_rs = 0;
  i_rt = 0;
  imm = 0;
  addr = 0;
}

-- The fields of one format.
unfoldable pub parse_fields : ℕ → ℕ → InsType → IInfo
parse_fields word opcode InsType.rtype = record (blank word opcode InsType.rtype) {
  rs = ext_bits word 21 25;
  rt = ext_bits word 16 20;
  rd = ext_bits word 11 15;
  shft = ext_bits word 6 10;
  func = ext_bits word 0 5;
}
parse_fields word opcode InsType.itype = record (blank word opcode InsType.itype) {
  i_rs = ext_bits word 21 25;
  i_rt = ext_bits word 16 20;
  imm = ext_bits word 0 15;
}
parse_fields word opcode InsType.jtype = record (blank word opcode InsType.jtype) {
  addr = ext_bits word 0 25;
}

unfoldable pub is_control : IInfo → InsType → Bool
is_control i InsType.rtype = is_cntrl_inst_r i
is_control i InsType.itype = is_cntrl_inst_i i
is_control i InsType.jtype = is_cntrl_inst_j i

unfoldable pub parse : ℕ → IInfo
unfolding parse_fields is_control
parse word =
    let opcode = ext_bits word 26 31 in
    let i = parse_fields word opcode (get_type opcode) in
    record i { is_control_inst = is_control i i.type }

-- ===== src/Emit/Encoding.antt =====
-- encodeI and encodeR: the fields of the emitted words do not overlap, and IInfo reads them back.
use type_ii_hypervisor_code.Common.{
  ℕ, ◌+◌, ◌*◌, ◌/◌, ◌%◌, ◌^◌, ◌<◌, bit_or, ◌≡◌, refl, ap, ◌∙◌, arith,
}
use type_ii_hypervisor_code.Word.Masks.{and-low_mask}
use type_ii_hypervisor_code.Word.Fields.{or_add}
use type_ii_hypervisor_code.Instr.{InsType, ext_bits, get_type, parse, parse_fields}
use type_ii_hypervisor_code.Decode.Tables.{ext_bits-eq, parse_fields-opcode}
use type_ii_hypervisor_code.Emit.{HostIns, encode, encode_i, encode_r}

-- `x | y` where x is a multiple of 2 ^ k, and y smaller.
or_field : (k a x y : ℕ) → x ≡ a * 2 ^ k → y < 2 ^ k → bit_or x y ≡ x + y
or_field k a x y e h = rw e (or_add k a y h)

head-eq :
    (op rs rt : ℕ)
    → bit_or (bit_or (op % 2 ^ 6 * 2 ^ 26) (rs % 2 ^ 5 * 2 ^ 21)) (rt % 2 ^ 5 * 2 ^ 16)
      ≡ op % 2 ^ 6 * 2 ^ 26 + rs % 2 ^ 5 * 2 ^ 21 + rt % 2 ^ 5 * 2 ^ 16
head-eq op rs rt =
    rw (or_field 26 (op % 2 ^ 6) (op % 2 ^ 6 * 2 ^ 26) (rs % 2 ^ 5 * 2 ^ 21) refl (omega arith)) (
      or_field 21 (op % 2 ^ 6 * 2 ^ 5 + rs % 2 ^ 5) _ (rt % 2 ^ 5 * 2 ^ 16) (omega arith)
        (omega arith))

pub encode_i-eq :
    (op rs rt imm : ℕ)
    → encode_i op rs rt imm
      ≡ op % 2 ^ 6 * 2 ^ 26 + rs % 2 ^ 5 * 2 ^ 21 + rt % 2 ^ 5 * 2 ^ 16 + imm % 2 ^ 16
unfolding encode_i
encode_i-eq op rs rt imm =
    rw
      (
        and-low_mask 6 op,
        and-low_mask 5 rs,
        and-low_mask 5 rt,
        and-low_mask 16 imm,
        head-eq op rs rt,
      )
      (or_field 16 (op % 2 ^ 6 * 2 ^ 10 + rs % 2 ^ 5 * 2 ^ 5 + rt % 2 ^ 5) _ (imm % 2 ^ 16)
        (omega arith) (omega arith))

pub encode_r-eq :
    (op rs rt rd sa func : ℕ)
    → encode_r op rs rt rd sa func
      ≡ op % 2 ^ 6 * 2 ^ 26
        + rs % 2 ^ 5 * 2 ^ 21
        + rt % 2 ^ 5 * 2 ^ 16
        + rd % 2 ^ 5 * 2 ^ 11
        + sa % 2 ^ 5 * 2 ^ 6
        + func % 2 ^ 6
unfolding encode_r
encode_r-eq op rs rt rd sa func =
    let high = op % 2 ^ 6 * 2 ^ 26 + rs % 2 ^ 5 * 2 ^ 21 + rt % 2 ^ 5 * 2 ^ 16 in
    let third : bit_or high (rd % 2 ^ 5 * 2 ^ 11) ≡ high + rd % 2 ^ 5 * 2 ^ 11 =
      or_field 16 (high / 2 ^ 16) high _ (omega arith) (omega arith) in
    let fourth : bit_or (high + rd % 2 ^ 5 * 2 ^ 11) (sa % 2 ^ 5 * 2 ^ 6)
        ≡ high + rd % 2 ^ 5 * 2 ^ 11 + sa % 2 ^ 5 * 2 ^ 6 =
      or_field 11 (high / 2 ^ 11 + rd % 2 ^ 5) _ _ (omega arith) (omega arith) in
    rw
      (
        and-low_mask 6 op,
        and-low_mask 5 rs,
        and-low_mask 5 rt,
        and-low_mask 5 rd,
        and-low_mask 5 sa,
        and-low_mask 6 func,
        head-eq op rs rt,
        third,
        fourth,
      )
      (or_field 6 ((high + rd % 2 ^ 5 * 2 ^ 11 + sa % 2 ^ 5 * 2 ^ 6) / 2 ^ 6) _ (func % 2 ^ 6)
        (omega arith) (omega arith))

-- A word of the register format reads back with all its fields.
pub parse-encode_r :
    (op rs rt rd sa func : ℕ)
    → op < 2 ^ 6
    → rs < 2 ^ 5
    → rt < 2 ^ 5
    → rd < 2 ^ 5
    → sa < 2 ^ 5
    → func < 2 ^ 6
    → get_type op ≡ InsType.rtype
    → let i = parse (encode (HostIns.r_word op rs rt rd sa func)) in
      (i.opcode ≡ op) × (i.rs ≡ rs) × (i.rt ≡ rt) × (i.rd ≡ rd) × (i.shft ≡ sa) × (i.func ≡ func)
unfolding parse encode parse_fields
parse-encode_r op rs rt rd sa func h1 h2 h3 h4 h5 h6 t =
    let w = encode_r op rs rt rd sa func in
    let oc = ext_bits w 26 31 in
    let word = encode_r-eq op rs rt rd sa func in
    let here : oc ≡ op = ext_bits-eq w 26 31 ∙ omega (arith, word) in
    let type : get_type oc ≡ InsType.rtype = rw here t in
    (
      parse_fields-opcode w oc (get_type oc) ∙ here,
      ap (λ t. (parse_fields w oc t).rs) type ∙ (ext_bits-eq w 21 25 ∙ omega (arith, word)),
      ap (λ t. (parse_fields w oc t).rt) type ∙ (ext_bits-eq w 16 20 ∙ omega (arith, word)),
      ap (λ t. (parse_fields w oc t).rd) type ∙ (ext_bits-eq w 11 15 ∙ omega (arith, word)),
      ap (λ t. (parse_fields w oc t).shft) type ∙ (ext_bits-eq w 6 10 ∙ omega (arith, word)),
      ap (λ t. (parse_fields w oc t).func) type ∙ (ext_bits-eq w 0 5 ∙ omega (arith, word)),
    )

-- A word of the immediate format reads back with all its fields.
pub parse-encode_i :
    (op rs rt imm : ℕ)
    → op < 2 ^ 6
    → rs < 2 ^ 5
    → rt < 2 ^ 5
    → imm < 2 ^ 16
    → get_type op ≡ InsType.itype
    → let i = parse (encode (HostIns.i_word op rs rt imm)) in
      (i.opcode ≡ op) × (i.i_rs ≡ rs) × (i.i_rt ≡ rt) × (i.imm ≡ imm)
unfolding parse encode parse_fields
parse-encode_i op rs rt imm h1 h2 h3 h4 t =
    let w = encode_i op rs rt imm in
    let oc = ext_bits w 26 31 in
    let word = encode_i-eq op rs rt imm in
    let here : oc ≡ op = ext_bits-eq w 26 31 ∙ omega (arith, word) in
    let type : get_type oc ≡ InsType.itype = rw here t in
    (
      parse_fields-opcode w oc (get_type oc) ∙ here,
      ap (λ t. (parse_fields w oc t).i_rs) type ∙ (ext_bits-eq w 21 25 ∙ omega (arith, word)),
      ap (λ t. (parse_fields w oc t).i_rt) type ∙ (ext_bits-eq w 16 20 ∙ omega (arith, word)),
      ap (λ t. (parse_fields w oc t).imm) type ∙ (ext_bits-eq w 0 15 ∙ omega (arith, word)),
    )

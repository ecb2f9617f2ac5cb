-- ===== src/Decode/Tables.antt =====
-- Facts on a table of handlers from its entries, and the opcode of a word.
use type_ii_hypervisor_code.Common.{
  length, ℕ, zero, suc, ◌+◌, ◌-◌, ◌/◌, ◌%◌, ◌^◌, ◌<◌, ◌≡◌, refl, arith, List, [], ◌∷◌,
}
use native.Mathlib.Nat.{mod-lt}
use type_ii_hypervisor_code.Word.Masks.{and-low_mask}
use type_ii_hypervisor_code.Instr.{IInfo, InsType, ext_bits, parse_fields, get_type, is_control}
use type_ii_hypervisor_code.Decode.{Decoded, Handler, select}
use type_ii_hypervisor_code.Decode.Special.{opcode0_0to5_bits}
use type_ii_hypervisor_code.Decode.Regimm.{opcode1_16to20_bits}
use type_ii_hypervisor_code.Decode.Opcodes.{opcode_funs_array}

-- The fields of a word, given its opcode.
abbrev pub parse_at : ℕ → ℕ → IInfo
parse_at word oc =
    let i = parse_fields word oc (get_type oc) in record i { is_control_inst = is_control i i.type }

-- `P` holds of the handlers of a table, with their positions.
abbrev pub AllFrom {κ} : (ℕ → Handler → Type κ) → ℕ → List Handler → Type κ
AllFrom P n [] = Unit
AllFrom P n (h ∷ table) = P n h × AllFrom P (suc n) table

pub select-AllFrom {κ} :
    (P : ℕ → Handler → Type κ) (n index at : ℕ) (table : List Handler)
    → AllFrom P n table
    → index < length table
    → n + index ≡ at
    → P at (select table index)
unfolding select length
select-AllFrom P n index at [] all h e = absurd (omega arith)
select-AllFrom P n zero at (x ∷ table) all h e = let here : at ≡ n = omega arith in rw here all.0
select-AllFrom P n (suc index) at (x ∷ table) all h e =
    select-AllFrom P (suc n) index at table all.1 (omega arith) (omega arith)

-- Whatever the index, if it holds behind the table too.
pub select-All {κ} :
    (P : Handler → Type κ) (n index : ℕ) (table : List Handler)
    → P (λ i. Decoded.beyond)
    → AllFrom (λ n. P) n table
    → P (select table index)
unfolding select
select-All P n index [] b all = b
select-All P n zero (x ∷ table) b all = all.0
select-All P n (suc index) (x ∷ table) b all = select-All P (suc n) index table b all.1

pub length-opcode0 : length opcode0_0to5_bits ≡ 64
unfolding length opcode0_0to5_bits
length-opcode0 = refl

pub length-opcode1 : length opcode1_16to20_bits ≡ 32
unfolding length opcode1_16to20_bits
length-opcode1 = refl

pub length-opcodes : length opcode_funs_array ≡ 64
unfolding length opcode_funs_array
length-opcodes = refl

pub ext_bits-eq :
    (val start end : ℕ) → ext_bits val start end ≡ val / 2 ^ start % 2 ^ (end - start + 1)
unfolding ext_bits
ext_bits-eq val start end = and-low_mask (end - start + 1) (val / 2 ^ start)

pub ext_bits-lt_64 : (word start : ℕ) → ext_bits word start (start + 5) < 64
ext_bits-lt_64 word start =
    let width : start + 5 - start + 1 ≡ 6 = omega arith in
    rw (ext_bits-eq, width) (mod-lt (word / 2 ^ start) (omega arith))

pub ext_bits-lt_32 : (word start : ℕ) → ext_bits word start (start + 4) < 32
ext_bits-lt_32 word start =
    let width : start + 4 - start + 1 ≡ 5 = omega arith in
    rw (ext_bits-eq, width) (mod-lt (word / 2 ^ start) (omega arith))

pub parse_fields-opcode : (word oc : ℕ) (t : InsType) → (parse_fields word oc t).opcode ≡ oc
unfolding parse_fields
parse_fields-opcode word oc InsType.rtype = refl
parse_fields-opcode word oc InsType.itype = refl
parse_fields-opcode word oc InsType.jtype = refl

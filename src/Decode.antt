-- ===== src/Decode.antt =====
-- InsDecoding.h and InsDecoding.cpp: which routine of Translation_IPE an instruction word goes to.
-- A handler of the source calls one routine, or nothing, or ends the process; here it gives the
-- routine and the instruction that it is called with. The tables of handlers are lists: a
-- position behind the end of a table, where the source reads behind the array, is `beyond`.
pub mod Special
pub mod Regimm
pub mod Cop0
pub mod Special2
pub mod Special3
pub mod Opcodes
pub mod Tables
pub mod Slots
pub mod Bounds
use type_ii_hypervisor_code.Common.{ℕ, zero, suc, List, [], ◌∷◌}
use type_ii_hypervisor_code.Instr.{IInfo}

-- The routines of Translation_IPE that translate one instruction.
pub data Routine : Type 0 where
  shift_r j jal bne_beq branch unprev_i nop bne_beq_likely branch_likely unprev_i_load : Routine
  unprev_i_store cache ll bbit pref lld sc terminate_block scd ssnop unprev_r jr jalr : Routine
  syscall br sync move_from_lo_hi_r move_to_lo_hi_r mul_div_r tge_tgeu_tlt_tltu_r : Routine
  teq_tne_r tgei_tgeiu_tlti_tltiu_i teqi_tnei_i tlbr tlbwi tlbwr tlbp eret deret mfc0 : Routine
  mtc0 di ei wait madd mtm0 mtp0 mtp1 mtp2 mtm1 mtm2 v3mulu saa saad seqi_snei ins_r : Routine
  ext_r rdhwr : Routine

pub data Decoded : Type 0 where
  call : Routine → IInfo → Decoded
  nothing exits beyond : Decoded

abbrev pub Handler : Type 0
Handler = IInfo → Decoded

abbrev pub not_an_ins : Handler
not_an_ins i = Decoded.exits

-- `table[index]`
unfoldable pub select : List Handler → ℕ → Handler
select [] index i = Decoded.beyond
select (h ∷ table) zero i = h i
select (h ∷ table) (suc index) i = select table index i

-- ===== src/Decode/Regimm.antt =====
-- InsDecoding.cpp: the handlers and the table of opcode 1, by the field rt.
use type_ii_hypervisor_code.Common.{List, [], ◌∷◌}
use type_ii_hypervisor_code.Decode.{Routine, Decoded, Handler, not_an_ins}

abbrev pub op1_16to20bits_0 : Handler
op1_16to20bits_0 = Decoded.call Routine.branch  -- bltz

abbrev pub op1_16to20bits_1 : Handler
op1_16to20bits_1 = Decoded.call Routine.branch  -- bgez

abbrev pub op1_16to20bits_2 : Handler
op1_16to20bits_2 = Decoded.call Routine.branch_likely  -- bltzl

abbrev pub op1_16to20bits_3 : Handler
op1_16to20bits_3 = Decoded.call Routine.branch_likely  -- bgezl

abbrev pub op1_16to20bits_8 : Handler
op1_16to20bits_8 = Decoded.call Routine.tgei_tgeiu_tlti_tltiu_i  -- tgei

abbrev pub op1_16to20bits_9 : Handler
op1_16to20bits_9 = Decoded.call Routine.tgei_tgeiu_tlti_tltiu_i  -- tgeiu

abbrev pub op1_16to20bits_10 : Handler
op1_16to20bits_10 = Decoded.call Routine.tgei_tgeiu_tlti_tltiu_i  -- tlti

abbrev pub op1_16to20bits_11 : Handler
op1_16to20bits_11 = Decoded.call Routine.tgei_tgeiu_tlti_tltiu_i  -- tltiu

abbrev pub op1_16to20bits_12 : Handler
op1_16to20bits_12 = Decoded.call Routine.teqi_tnei_i  -- teqi

abbrev pub op1_16to20bits_14 : Handler
op1_16to20bits_14 = Decoded.call Routine.teqi_tnei_i  -- tnei

abbrev pub op1_16to20bits_16 : Handler
op1_16to20bits_16 = Decoded.call Routine.branch  -- bltzal

abbrev pub op1_16to20bits_17 : Handler
op1_16to20bits_17 = Decoded.call Routine.branch  -- bgezal

abbrev pub op1_16to20bits_18 : Handler
op1_16to20bits_18 = Decoded.call Routine.branch_likely  -- bltzall

abbrev pub op1_16to20bits_19 : Handler
op1_16to20bits_19 = Decoded.call Routine.branch_likely  -- bgezall

abbrev pub op1_16to20bits_31 : Handler
op1_16to20bits_31 = Decoded.call Routine.nop  -- synci

unfoldable pub opcode1_16to20_bits : List Handler
opcode1_16to20_bits =
    op1_16to20bits_0 ∷ op1_16to20bits_1 ∷ op1_16to20bits_2 ∷ op1_16to20bits_3 ∷ not_an_ins
    ∷ not_an_ins ∷ not_an_ins ∷ not_an_ins ∷ op1_16to20bits_8 ∷ op1_16to20bits_9 ∷ op1_16to20bits_10
    ∷ op1_16to20bits_11 ∷ op1_16to20bits_12 ∷ not_an_ins ∷ op1_16to20bits_14 ∷ not_an_ins
    ∷ op1_16to20bits_16 ∷ op1_16to20bits_17 ∷ op1_16to20bits_18 ∷ op1_16to20bits_19 ∷ not_an_ins
    ∷ not_an_ins ∷ not_an_ins ∷ not_an_ins ∷ not_an_ins ∷ not_an_ins ∷ not_an_ins ∷ not_an_ins
    ∷ not_an_ins ∷ not_an_ins ∷ not_an_ins ∷ op1_16to20bits_31 ∷ []

-- ===== src/Decode/Special2.antt =====
-- InsDecoding.cpp: the handlers and the table of opcode 28, by the function field.
use type_ii_hypervisor_code.Common.{List, [], ◌∷◌}
use type_ii_hypervisor_code.Decode.{Routine, Decoded, Handler, not_an_ins}

abbrev pub op28_0to5bits_0 : Handler
op28_0to5bits_0 = Decoded.call Routine.madd  -- madd

abbrev pub op28_0to5bits_1 : Handler
op28_0to5bits_1 = Decoded.call Routine.madd  -- maddu

abbrev pub op28_0to5bits_2 : Handler
op28_0to5bits_2 = Decoded.call Routine.unprev_r  -- mul

abbrev pub op28_0to5bits_3 : Handler
op28_0to5bits_3 = Decoded.call Routine.unprev_r  -- dmul

abbrev pub op28_0to5bits_4 : Handler
op28_0to5bits_4 = Decoded.call Routine.madd  -- msub

abbrev pub op28_0to5bits_5 : Handler
op28_0to5bits_5 = Decoded.call Routine.madd  -- msubu

abbrev pub op28_0to5bits_8 : Handler
op28_0to5bits_8 = Decoded.call Routine.mtm0  -- mtm0

abbrev pub op28_0to5bits_9 : Handler
op28_0to5bits_9 = Decoded.call Routine.mtp0  -- mtp0

abbrev pub op28_0to5bits_10 : Handler
op28_0to5bits_10 = Decoded.call Routine.mtp1  -- mtp1

abbrev pub op28_0to5bits_11 : Handler
op28_0to5bits_11 = Decoded.call Routine.mtp2  -- mtp2

abbrev pub op28_0to5bits_12 : Handler
op28_0to5bits_12 = Decoded.call Routine.mtm1  -- mtm1

abbrev pub op28_0to5bits_13 : Handler
op28_0to5bits_13 = Decoded.call Routine.mtm2  -- mtm2

abbrev pub op28_0to5bits_15 : Handler
op28_0to5bits_15 i = Decoded.nothing  -- vmulu

abbrev pub op28_0to5bits_16 : Handler
op28_0to5bits_16 i = Decoded.nothing  -- vmm0

abbrev pub op28_0to5bits_17 : Handler
op28_0to5bits_17 = Decoded.call Routine.v3mulu  -- v3mulu

abbrev pub op28_0to5bits_24 : Handler
op28_0to5bits_24 = Decoded.call Routine.saa  -- saa

abbrev pub op28_0to5bits_25 : Handler
op28_0to5bits_25 = Decoded.call Routine.saad  -- saad

abbrev pub op28_0to5bits_32 : Handler
op28_0to5bits_32 = Decoded.call Routine.unprev_r  -- clz

abbrev pub op28_0to5bits_33 : Handler
op28_0to5bits_33 = Decoded.call Routine.unprev_r  -- clo

abbrev pub op28_0to5bits_36 : Handler
op28_0to5bits_36 = Decoded.call Routine.unprev_r  -- dclz

abbrev pub op28_0to5bits_37 : Handler
op28_0to5bits_37 = Decoded.call Routine.unprev_r  -- dclo

abbrev pub op28_0to5bits_40 : Handler
op28_0to5bits_40 = Decoded.call Routine.unprev_r  -- baddu

abbrev pub op28_0to5bits_42 : Handler
op28_0to5bits_42 = Decoded.call Routine.unprev_r  -- seq

abbrev pub op28_0to5bits_43 : Handler
op28_0to5bits_43 = Decoded.call Routine.unprev_r  -- sne

abbrev pub op28_0to5bits_44 : Handler
op28_0to5bits_44 = Decoded.call Routine.unprev_r  -- pop

abbrev pub op28_0to5bits_45 : Handler
op28_0to5bits_45 = Decoded.call Routine.unprev_r  -- dpop

abbrev pub op28_0to5bits_46 : Handler
op28_0to5bits_46 = Decoded.call Routine.seqi_snei  -- seqi

abbrev pub op28_0to5bits_47 : Handler
op28_0to5bits_47 = Decoded.call Routine.seqi_snei  -- snei

abbrev pub op28_0to5bits_50 : Handler
op28_0to5bits_50 = Decoded.call Routine.ins_r  -- cins

abbrev pub op28_0to5bits_51 : Handler
op28_0to5bits_51 = Decoded.call Routine.ins_r  -- cins32

abbrev pub op28_0to5bits_58 : Handler
op28_0to5bits_58 = Decoded.call Routine.ext_r  -- exts

abbrev pub op28_0to5bits_59 : Handler
op28_0to5bits_59 = Decoded.call Routine.ext_r  -- exts32

abbrev pub op28_0to5bits_63 : Handler
op28_0to5bits_63 = Decoded.call Routine.nop  -- sdbbp

unfoldable pub opcode28_0to5_bits : List Handler
opcode28_0to5_bits =
    op28_0to5bits_0 ∷ op28_0to5bits_1 ∷ op28_0to5bits_2 ∷ op28_0to5bits_3 ∷ op28_0to5bits_4
    ∷ op28_0to5bits_5 ∷ not_an_ins ∷ not_an_ins ∷ op28_0to5bits_8 ∷ op28_0to5bits_9
    ∷ op28_0to5bits_10 ∷ op28_0to5bits_11 ∷ op28_0to5bits_12 ∷ op28_0to5bits_13 ∷ not_an_ins
    ∷ op28_0to5bits_15 ∷ op28_0to5bits_16 ∷ op28_0to5bits_17 ∷ not_an_ins ∷ not_an_ins ∷ not_an_ins
    ∷ not_an_ins ∷ not_an_ins ∷ not_an_ins ∷ op28_0to5bits_24 ∷ op28_0to5bits_25 ∷ not_an_ins
    ∷ not_an_ins ∷ not_an_ins ∷ not_an_ins ∷ not_an_ins ∷ not_an_ins ∷ op28_0to5bits_32
    ∷ op28_0to5bits_33 ∷ not_an_ins ∷ not_an_ins ∷ op28_0to5bits_36 ∷ op28_0to5bits_37 ∷ not_an_ins
    ∷ not_an_ins ∷ op28_0to5bits_40 ∷ not_an_ins ∷ op28_0to5bits_42 ∷ op28_0to5bits_43
    ∷ op28_0to5bits_44 ∷ op28_0to5bits_45 ∷ op28_0to5bits_46 ∷ op28_0to5bits_47 ∷ not_an_ins
    ∷ not_an_ins ∷ op28_0to5bits_50 ∷ op28_0to5bits_51 ∷ not_an_ins ∷ not_an_ins ∷ not_an_ins
    ∷ not_an_ins ∷ not_an_ins ∷ not_an_ins ∷ op28_0to5bits_58 ∷ op28_0to5bits_59 ∷ not_an_ins
    ∷ not_an_ins ∷ not_an_ins ∷ op28_0to5bits_63 ∷ []

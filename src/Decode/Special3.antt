-- ===== src/Decode/Special3.antt =====
-- InsDecoding.cpp: the handlers and the table of opcode 31, by the function field.
use type_ii_hypervisor_code.Common.{List, [], ◌∷◌}
use type_ii_hypervisor_code.Decode.{Routine, Decoded, Handler, not_an_ins}

abbrev pub op31_0to5bits_0 : Handler
op31_0to5bits_0 = Decoded.call Routine.ext_r  -- ext

abbrev pub op31_0to5bits_1 : Handler
op31_0to5bits_1 = Decoded.call Routine.ext_r  -- dextm

abbrev pub op31_0to5bits_2 : Handler
op31_0to5bits_2 = Decoded.call Routine.ext_r  -- dextu

abbrev pub op31_0to5bits_3 : Handler
op31_0to5bits_3 = Decoded.call Routine.ext_r  -- dext

abbrev pub op31_0to5bits_4 : Handler
op31_0to5bits_4 = Decoded.call Routine.ins_r  -- ins

abbrev pub op31_0to5bits_5 : Handler
op31_0to5bits_5 = Decoded.call Routine.ins_r  -- dinsm

abbrev pub op31_0to5bits_6 : Handler
op31_0to5bits_6 = Decoded.call Routine.ins_r  -- dinsu

abbrev pub op31_0to5bits_7 : Handler
op31_0to5bits_7 = Decoded.call Routine.ins_r  -- dins

abbrev pub op31_0to5bits_32 : Handler
op31_0to5bits_32 = Decoded.call Routine.unprev_r  -- seb, seh, wsbh

abbrev pub op31_0to5bits_36 : Handler
op31_0to5bits_36 = Decoded.call Routine.unprev_r  -- dsbh, dshd

abbrev pub op31_0to5bits_59 : Handler
op31_0to5bits_59 = Decoded.call Routine.rdhwr  -- rdhwr

unfoldable pub opcode31_0to5_bits : List Handler
opcode31_0to5_bits =
    op31_0to5bits_0 ∷ op31_0to5bits_1 ∷ op31_0to5bits_2 ∷ op31_0to5bits_3 ∷ op31_0to5bits_4
    ∷ op31_0to5bits_5 ∷ op31_0to5bits_6 ∷ op31_0to5bits_7 ∷ not_an_ins ∷ not_an_ins ∷ not_an_ins
    ∷ not_an_ins ∷ not_an_ins ∷ not_an_ins ∷ not_an_ins ∷ not_an_ins ∷ not_an_ins ∷ not_an_ins
    ∷ not_an_ins ∷ not_an_ins ∷ not_an_ins ∷ not_an_ins ∷ not_an_ins ∷ not_an_ins ∷ not_an_ins
    ∷ not_an_ins ∷ not_an_ins ∷ not_an_ins ∷ not_an_ins ∷ not_an_ins ∷ not_an_ins ∷ not_an_ins
    ∷ op31_0to5bits_32 ∷ not_an_ins ∷ not_an_ins ∷ not_an_ins ∷ op31_0to5bits_36 ∷ not_an_ins
    ∷ not_an_ins ∷ not_an_ins ∷ not_an_ins ∷ not_an_ins ∷ not_an_ins ∷ not_an_ins ∷ not_an_ins
    ∷ not_an_ins ∷ not_an_ins ∷ not_an_ins ∷ not_an_ins ∷ not_an_ins ∷ not_an_ins ∷ not_an_ins
    ∷ not_an_ins ∷ not_an_ins ∷ not_an_ins ∷ not_an_ins ∷ not_an_ins ∷ not_an_ins ∷ not_an_ins
    ∷ op31_0to5bits_59 ∷ []

-- ===== src/Decode/Cop0.antt =====
-- InsDecoding.cpp: the handlers and the two tables of opcode 16, by the field rs and, for rs 16,
-- by the function field.
use type_ii_hypervisor_code.Common.{◌==◌, if◌then◌else◌, List, [], ◌∷◌}
use type_ii_hypervisor_code.Decode.{Routine, Decoded, Handler, not_an_ins}

abbrev pub op16_0to5bits_1 : Handler
op16_0to5bits_1 = Decoded.call Routine.tlbr  -- tlbr

abbrev pub op16_0to5bits_2 : Handler
op16_0to5bits_2 = Decoded.call Routine.tlbwi  -- tlbwi

abbrev pub op16_0to5bits_6 : Handler
op16_0to5bits_6 = Decoded.call Routine.tlbwr  -- tlbwr

abbrev pub op16_0to5bits_8 : Handler
op16_0to5bits_8 = Decoded.call Routine.tlbp  -- tlbp

abbrev pub op16_0to5bits_24 : Handler
op16_0to5bits_24 = Decoded.call Routine.eret  -- eret

abbrev pub op16_0to5bits_31 : Handler
op16_0to5bits_31 = Decoded.call Routine.deret  -- deret

abbrev pub op16_21to25bits_0 : Handler
op16_21to25bits_0 = Decoded.call Routine.mfc0  -- mfc0

abbrev pub op16_21to25bits_1 : Handler
op16_21to25bits_1 = Decoded.call Routine.mfc0  -- dmfc0

abbrev pub op16_21to25bits_4 : Handler
op16_21to25bits_4 = Decoded.call Routine.mtc0  -- mtco

abbrev pub op16_21to25bits_5 : Handler
op16_21to25bits_5 = Decoded.call Routine.mtc0  -- dmtc0

abbrev pub op16_21to25bits_10 : Handler
op16_21to25bits_10 = Decoded.call Routine.nop  -- rdpgpr

abbrev pub op16_21to25bits_14 : Handler
op16_21to25bits_14 = Decoded.call Routine.nop  -- wrpgpr

abbrev pub op16_0to5bits_32 : Handler
op16_0to5bits_32 = Decoded.call Routine.wait  -- wait

abbrev pub op16_21to25bits_11 : Handler
op16_21to25bits_11 i =
    if i.func == 0
    then Decoded.call Routine.di i
    else if i.func == 32
    then Decoded.call Routine.ei i
    else Decoded.nothing

unfoldable pub opcode16_21to25_bits : List Handler
opcode16_21to25_bits =
    op16_21to25bits_0 ∷ op16_21to25bits_1 ∷ not_an_ins ∷ not_an_ins ∷ op16_21to25bits_4
    ∷ op16_21to25bits_5 ∷ not_an_ins ∷ not_an_ins ∷ not_an_ins ∷ not_an_ins ∷ op16_21to25bits_10
    ∷ op16_21to25bits_11 ∷ not_an_ins ∷ not_an_ins ∷ op16_21to25bits_14 ∷ not_an_ins ∷ not_an_ins
    ∷ not_an_ins ∷ not_an_ins ∷ not_an_ins ∷ not_an_ins ∷ not_an_ins ∷ not_an_ins ∷ not_an_ins
    ∷ not_an_ins ∷ not_an_ins ∷ not_an_ins ∷ not_an_ins ∷ not_an_ins ∷ not_an_ins ∷ not_an_ins
    ∷ not_an_ins ∷ []

unfoldable pub opcode16_0to5_bits : List Handler
opcode16_0to5_bits =
    not_an_ins ∷ op16_0to5bits_1 ∷ op16_0to5bits_2 ∷ not_an_ins ∷ not_an_ins ∷ not_an_ins
    ∷ op16_0to5bits_6 ∷ not_an_ins ∷ op16_0to5bits_8 ∷ not_an_ins ∷ not_an_ins ∷ not_an_ins
    ∷ not_an_ins ∷ not_an_ins ∷ not_an_ins ∷ not_an_ins ∷ not_an_ins ∷ not_an_ins ∷ not_an_ins
    ∷ not_an_ins ∷ not_an_ins ∷ not_an_ins ∷ not_an_ins ∷ not_an_ins ∷ op16_0to5bits_24 ∷ not_an_ins
    ∷ not_an_ins ∷ not_an_ins ∷ not_an_ins ∷ not_an_ins ∷ not_an_ins ∷ op16_0to5bits_31
    ∷ op16_0to5bits_32 ∷ []

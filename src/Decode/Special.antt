-- ===== src/Decode/Special.antt =====
-- InsDecoding.cpp: the handlers and the table of opcode 0, by the function field.
use type_ii_hypervisor_code.Common.{◌==◌, ◌&&◌, if◌then◌else◌, List, [], ◌∷◌}
use type_ii_hypervisor_code.Decode.{Routine, Decoded, Handler, not_an_ins}

abbrev pub op0_0to5bits_0 : Handler
op0_0to5bits_0 i =
    if i.encoding == 0
    then Decoded.call Routine.nop i
    else if i.rs == 0 && i.rd == 0 && i.rt == 0
    then (if i.shft == 1
        then Decoded.call Routine.ssnop i
        else if i.shft == 3
        then Decoded.call Routine.nop i
        else Decoded.nothing)
    else Decoded.call Routine.shift_r i

abbrev pub op0_0to5bits_2 : Handler
op0_0to5bits_2 = Decoded.call Routine.shift_r  -- srl, rotr

abbrev pub op0_0to5bits_3 : Handler
op0_0to5bits_3 = Decoded.call Routine.shift_r  -- sra

abbrev pub op0_0to5bits_4 : Handler
op0_0to5bits_4 = Decoded.call Routine.unprev_r  -- sllv

abbrev pub op0_0to5bits_6 : Handler
op0_0to5bits_6 = Decoded.call Routine.unprev_r  -- srlv, rotrv

abbrev pub op0_0to5bits_7 : Handler
op0_0to5bits_7 = Decoded.call Routine.unprev_r  -- srav

abbrev pub op0_0to5bits_8 : Handler
op0_0to5bits_8 = Decoded.call Routine.jr  -- jr, jr.hb

abbrev pub op0_0to5bits_9 : Handler
op0_0to5bits_9 = Decoded.call Routine.jalr  -- jalr, jalr.hb

abbrev pub op0_0to5bits_10 : Handler
op0_0to5bits_10 = Decoded.call Routine.unprev_r  -- movz

abbrev pub op0_0to5bits_11 : Handler
op0_0to5bits_11 = Decoded.call Routine.unprev_r  -- movn

abbrev pub op0_0to5bits_12 : Handler
op0_0to5bits_12 = Decoded.call Routine.syscall  -- syscall

abbrev pub op0_0to5bits_13 : Handler
op0_0to5bits_13 = Decoded.call Routine.br  -- break

abbrev pub op0_0to5bits_14 : Handler
op0_0to5bits_14 = Decoded.call Routine.nop  -- sdbbp

-- The three branches differ in the routine only: `sync`, or `nop` for synciobdma and syncs.
abbrev pub op0_0to5bits_15 : Handler
op0_0to5bits_15 i = if i.shft == 0 then Decoded.call Routine.sync i else Decoded.call Routine.nop i

abbrev pub op0_0to5bits_16 : Handler
op0_0to5bits_16 = Decoded.call Routine.move_from_lo_hi_r  -- mfhi

abbrev pub op0_0to5bits_17 : Handler
op0_0to5bits_17 = Decoded.call Routine.move_to_lo_hi_r  -- mthi

abbrev pub op0_0to5bits_18 : Handler
op0_0to5bits_18 = Decoded.call Routine.move_from_lo_hi_r  -- mflo

abbrev pub op0_0to5bits_19 : Handler
op0_0to5bits_19 = Decoded.call Routine.move_to_lo_hi_r  -- mtlo

abbrev pub op0_0to5bits_20 : Handler
op0_0to5bits_20 = Decoded.call Routine.unprev_r  -- dsllv

abbrev pub op0_0to5bits_22 : Handler
op0_0to5bits_22 = Decoded.call Routine.unprev_r  -- dsrlv, drotrv

abbrev pub op0_0to5bits_23 : Handler
op0_0to5bits_23 = Decoded.call Routine.unprev_r  -- dsrav

abbrev pub op0_0to5bits_24 : Handler
op0_0to5bits_24 = Decoded.call Routine.mul_div_r  -- mult

abbrev pub op0_0to5bits_25 : Handler
op0_0to5bits_25 = Decoded.call Routine.mul_div_r  -- multu

abbrev pub op0_0to5bits_26 : Handler
op0_0to5bits_26 = Decoded.call Routine.mul_div_r  -- div

abbrev pub op0_0to5bits_27 : Handler
op0_0to5bits_27 = Decoded.call Routine.mul_div_r  -- divu

abbrev pub op0_0to5bits_28 : Handler
op0_0to5bits_28 = Decoded.call Routine.mul_div_r  -- dmult

abbrev pub op0_0to5bits_29 : Handler
op0_0to5bits_29 = Decoded.call Routine.mul_div_r  -- dmultu

abbrev pub op0_0to5bits_30 : Handler
op0_0to5bits_30 = Decoded.call Routine.mul_div_r  -- ddiv

abbrev pub op0_0to5bits_31 : Handler
op0_0to5bits_31 = Decoded.call Routine.mul_div_r  -- ddivu

abbrev pub op0_0to5bits_32 : Handler
op0_0to5bits_32 = Decoded.call Routine.unprev_r  -- add

abbrev pub op0_0to5bits_33 : Handler
op0_0to5bits_33 = Decoded.call Routine.unprev_r  -- addu

abbrev pub op0_0to5bits_34 : Handler
op0_0to5bits_34 = Decoded.call Routine.unprev_r  -- sub

abbrev pub op0_0to5bits_35 : Handler
op0_0to5bits_35 = Decoded.call Routine.unprev_r  -- subu

abbrev pub op0_0to5bits_36 : Handler
op0_0to5bits_36 = Decoded.call Routine.unprev_r  -- and

abbrev pub op0_0to5bits_37 : Handler
op0_0to5bits_37 = Decoded.call Routine.unprev_r  -- or

abbrev pub op0_0to5bits_38 : Handler
op0_0to5bits_38 = Decoded.call Routine.unprev_r  -- xor

abbrev pub op0_0to5bits_39 : Handler
op0_0to5bits_39 = Decoded.call Routine.unprev_r  -- nor

abbrev pub op0_0to5bits_42 : Handler
op0_0to5bits_42 = Decoded.call Routine.unprev_r  -- slt

abbrev pub op0_0to5bits_43 : Handler
op0_0to5bits_43 = Decoded.call Routine.unprev_r  -- sltu

abbrev pub op0_0to5bits_44 : Handler
op0_0to5bits_44 = Decoded.call Routine.unprev_r  -- dadd

abbrev pub op0_0to5bits_45 : Handler
op0_0to5bits_45 = Decoded.call Routine.unprev_r  -- daddu

abbrev pub op0_0to5bits_46 : Handler
op0_0to5bits_46 = Decoded.call Routine.unprev_r  -- dsub

abbrev pub op0_0to5bits_47 : Handler
op0_0to5bits_47 = Decoded.call Routine.unprev_r  -- dsubu

abbrev pub op0_0to5bits_48 : Handler
op0_0to5bits_48 = Decoded.call Routine.tge_tgeu_tlt_tltu_r  -- tge

abbrev pub op0_0to5bits_49 : Handler
op0_0to5bits_49 = Decoded.call Routine.tge_tgeu_tlt_tltu_r  -- tgeu

abbrev pub op0_0to5bits_50 : Handler
op0_0to5bits_50 = Decoded.call Routine.tge_tgeu_tlt_tltu_r  -- tlt

abbrev pub op0_0to5bits_51 : Handler
op0_0to5bits_51 = Decoded.call Routine.tge_tgeu_tlt_tltu_r  -- tltu

abbrev pub op0_0to5bits_52 : Handler
op0_0to5bits_52 = Decoded.call Routine.teq_tne_r  -- teq

abbrev pub op0_0to5bits_54 : Handler
op0_0to5bits_54 = Decoded.call Routine.teq_tne_r  -- tne

abbrev pub op0_0to5bits_56 : Handler
op0_0to5bits_56 = Decoded.call Routine.shift_r  -- dsll

abbrev pub op0_0to5bits_58 : Handler
op0_0to5bits_58 = Decoded.call Routine.shift_r  -- dsrl

abbrev pub op0_0to5bits_59 : Handler
op0_0to5bits_59 = Decoded.call Routine.shift_r  -- dsra

abbrev pub op0_0to5bits_60 : Handler
op0_0to5bits_60 = Decoded.call Routine.shift_r  -- dsll32

abbrev pub op0_0to5bits_62 : Handler
op0_0to5bits_62 = Decoded.call Routine.shift_r  -- dsrl32

abbrev pub op0_0to5bits_63 : Handler
op0_0to5bits_63 = Decoded.call Routine.shift_r  -- dsra32

unfoldable pub opcode0_0to5_bits : List Handler
opcode0_0to5_bits =
    op0_0to5bits_0 ∷ not_an_ins ∷ op0_0to5bits_2 ∷ op0_0to5bits_3 ∷ op0_0to5bits_4 ∷ not_an_ins
    ∷ op0_0to5bits_6 ∷ op0_0to5bits_7 ∷ op0_0to5bits_8 ∷ op0_0to5bits_9 ∷ op0_0to5bits_10
    ∷ op0_0to5bits_11 ∷ op0_0to5bits_12 ∷ op0_0to5bits_13 ∷ op0_0to5bits_14 ∷ op0_0to5bits_15
    ∷ op0_0to5bits_16 ∷ op0_0to5bits_17 ∷ op0_0to5bits_18 ∷ op0_0to5bits_19 ∷ op0_0to5bits_20
    ∷ not_an_ins ∷ op0_0to5bits_22 ∷ op0_0to5bits_23 ∷ op0_0to5bits_24 ∷ op0_0to5bits_25
    ∷ op0_0to5bits_26 ∷ op0_0to5bits_27 ∷ op0_0to5bits_28 ∷ op0_0to5bits_29 ∷ op0_0to5bits_30
    ∷ op0_0to5bits_31 ∷ op0_0to5bits_32 ∷ op0_0to5bits_33 ∷ op0_0to5bits_34 ∷ op0_0to5bits_35
    ∷ op0_0to5bits_36 ∷ op0_0to5bits_37 ∷ op0_0to5bits_38 ∷ op0_0to5bits_39 ∷ not_an_ins
    ∷ not_an_ins ∷ op0_0to5bits_42 ∷ op0_0to5bits_43 ∷ op0_0to5bits_44 ∷ op0_0to5bits_45
    ∷ op0_0to5bits_46 ∷ op0_0to5bits_47 ∷ op0_0to5bits_48 ∷ op0_0to5bits_49 ∷ op0_0to5bits_50
    ∷ op0_0to5bits_51 ∷ op0_0to5bits_52 ∷ not_an_ins ∷ op0_0to5bits_54 ∷ not_an_ins
    ∷ op0_0to5bits_56 ∷ not_an_ins ∷ op0_0to5bits_58 ∷ op0_0to5bits_59 ∷ op0_0to5bits_60
    ∷ not_an_ins ∷ op0_0to5bits_62 ∷ op0_0to5bits_63 ∷ []

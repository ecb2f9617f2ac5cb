-- ===== src/Decode/Opcodes.antt =====
-- InsDecoding.cpp: the handlers of the opcodes, their table, and the entry of the decoder.
use type_ii_hypervisor_code.Common.{◌==◌, ◌&&◌, if◌then◌else◌, List, [], ◌∷◌}
use type_ii_hypervisor_code.Instr.{IInfo, InsType, ext_bits}
use type_ii_hypervisor_code.Decode.{Routine, Decoded, Handler, not_an_ins, select}
use type_ii_hypervisor_code.Decode.Special.{opcode0_0to5_bits}
use type_ii_hypervisor_code.Decode.Regimm.{opcode1_16to20_bits}
use type_ii_hypervisor_code.Decode.Cop0.{opcode16_21to25_bits, opcode16_0to5_bits}
use type_ii_hypervisor_code.Decode.Special2.{opcode28_0to5_bits}
use type_ii_hypervisor_code.Decode.Special3.{opcode31_0to5_bits}

unfoldable pub opcode_0 : Handler
opcode_0 i = select opcode0_0to5_bits i.func i

-- The fields that drotr is given, from the word.
unfoldable pub as_drotr : IInfo → IInfo
as_drotr i = record i {
  imm = 0;
  i_rs = 0;
  i_rt = 0;
  type = InsType.rtype;
  func = ext_bits i.encoding 0 5;
  rs = ext_bits i.encoding 21 25;
  rt = ext_bits i.encoding 16 20;
  rd = ext_bits i.encoding 11 15;
  shft = ext_bits i.encoding 6 10;
}

unfoldable pub opcode_1 : Handler
unfolding as_drotr
opcode_1 i =
    if ext_bits i.encoding 0 5 == 58 && i.i_rs == 0
    then Decoded.call Routine.shift_r (as_drotr i)
    else select opcode1_16to20_bits i.i_rt i

abbrev pub opcode_2 : Handler
opcode_2 = Decoded.call Routine.j  -- j

abbrev pub opcode_3 : Handler
opcode_3 = Decoded.call Routine.jal  -- jal

abbrev pub opcode_4 : Handler
opcode_4 = Decoded.call Routine.bne_beq  -- beq

abbrev pub opcode_5 : Handler
opcode_5 = Decoded.call Routine.bne_beq  -- bne

abbrev pub opcode_6 : Handler
opcode_6 = Decoded.call Routine.branch  -- blez

abbrev pub opcode_7 : Handler
opcode_7 = Decoded.call Routine.branch  -- bgtz

abbrev pub opcode_8 : Handler
opcode_8 = Decoded.call Routine.unprev_i  -- addi

abbrev pub opcode_9 : Handler
opcode_9 = Decoded.call Routine.unprev_i  -- addiu

abbrev pub opcode_10 : Handler
opcode_10 = Decoded.call Routine.unprev_i  -- slti

abbrev pub opcode_11 : Handler
opcode_11 = Decoded.call Routine.unprev_i  -- sltiu

abbrev pub opcode_12 : Handler
opcode_12 = Decoded.call Routine.unprev_i  -- andi

abbrev pub opcode_13 : Handler
opcode_13 = Decoded.call Routine.unprev_i  -- ori

abbrev pub opcode_14 : Handler
opcode_14 = Decoded.call Routine.unprev_i  -- xori

abbrev pub opcode_15 : Handler
opcode_15 = Decoded.call Routine.unprev_i  -- lui

unfoldable pub opcode_16 : Handler
opcode_16 i =
    if i.rs == 16 then select opcode16_0to5_bits i.func i else select opcode16_21to25_bits i.rs i

-- dmfc2 and dmtc2; for all others nothing is done.
unfoldable pub opcode_18 : Handler
opcode_18 i =
    if i.rs == 1
    then Decoded.call Routine.nop i
    else if i.rs == 5
    then Decoded.call Routine.nop i
    else Decoded.nothing

abbrev pub opcode_20 : Handler
opcode_20 = Decoded.call Routine.bne_beq_likely  -- beql

abbrev pub opcode_21 : Handler
opcode_21 = Decoded.call Routine.bne_beq_likely  -- bnel

abbrev pub opcode_22 : Handler
opcode_22 = Decoded.call Routine.branch_likely  -- blezl

abbrev pub opcode_23 : Handler
opcode_23 = Decoded.call Routine.branch_likely  -- bgtzl

abbrev pub opcode_24 : Handler
opcode_24 = Decoded.call Routine.unprev_i  -- daddi

abbrev pub opcode_25 : Handler
opcode_25 = Decoded.call Routine.unprev_i  -- daddiu

abbrev pub opcode_26 : Handler
opcode_26 = Decoded.call Routine.unprev_i_load  -- ldl

abbrev pub opcode_27 : Handler
opcode_27 = Decoded.call Routine.unprev_i_load  -- ldr

unfoldable pub opcode_28 : Handler
opcode_28 i = select opcode28_0to5_bits i.func i

unfoldable pub opcode_31 : Handler
opcode_31 i = select opcode31_0to5_bits i.func i

abbrev pub opcode_32 : Handler
opcode_32 = Decoded.call Routine.unprev_i_load  -- lb

abbrev pub opcode_33 : Handler
opcode_33 = Decoded.call Routine.unprev_i_load  -- lh

abbrev pub opcode_34 : Handler
opcode_34 = Decoded.call Routine.unprev_i_load  -- lwl

abbrev pub opcode_35 : Handler
opcode_35 = Decoded.call Routine.unprev_i_load  -- lw

abbrev pub opcode_36 : Handler
opcode_36 = Decoded.call Routine.unprev_i_load  -- lbu

abbrev pub opcode_37 : Handler
opcode_37 = Decoded.call Routine.unprev_i_load  -- lhu

abbrev pub opcode_38 : Handler
opcode_38 = Decoded.call Routine.unprev_i_load  -- lwr

abbrev pub opcode_39 : Handler
opcode_39 = Decoded.call Routine.unprev_i_load  -- lwu

abbrev pub opcode_40 : Handler
opcode_40 = Decoded.call Routine.unprev_i_store  -- sb

abbrev pub opcode_41 : Handler
opcode_41 = Decoded.call Routine.unprev_i_store  -- sh

abbrev pub opcode_42 : Handler
opcode_42 = Decoded.call Routine.unprev_i_store  -- swl

abbrev pub opcode_43 : Handler
opcode_43 = Decoded.call Routine.unprev_i_store  -- sw

abbrev pub opcode_44 : Handler
opcode_44 = Decoded.call Routine.unprev_i_store  -- sdl

abbrev pub opcode_45 : Handler
opcode_45 = Decoded.call Routine.unprev_i_store  -- sdr

abbrev pub opcode_46 : Handler
opcode_46 = Decoded.call Routine.unprev_i_store  -- swr

abbrev pub opcode_47 : Handler
opcode_47 = Decoded.call Routine.cache  -- cache

abbrev pub opcode_48 : Handler
opcode_48 = Decoded.call Routine.ll  -- ll

abbrev pub opcode_50 : Handler
opcode_50 = Decoded.call Routine.bbit  -- bbit0

abbrev pub opcode_51 : Handler
opcode_51 = Decoded.call Routine.pref  -- pref

abbrev pub opcode_52 : Handler
opcode_52 = Decoded.call Routine.lld  -- lld

abbrev pub opcode_54 : Handler
opcode_54 = Decoded.call Routine.bbit  -- bbit032

abbrev pub opcode_55 : Handler
opcode_55 = Decoded.call Routine.unprev_i_load  -- ld

abbrev pub opcode_56 : Handler
opcode_56 = Decoded.call Routine.sc  -- sc

abbrev pub opcode_58 : Handler
opcode_58 = Decoded.call Routine.bbit  -- bbit1

abbrev pub opcode_59 : Handler
opcode_59 = Decoded.call Routine.terminate_block  -- BlockTermination

abbrev pub opcode_60 : Handler
opcode_60 = Decoded.call Routine.scd  -- scd

abbrev pub opcode_62 : Handler
opcode_62 = Decoded.call Routine.bbit  -- bbit132

abbrev pub opcode_63 : Handler
opcode_63 = Decoded.call Routine.unprev_i_store  -- sd

unfoldable pub opcode_funs_array : List Handler
unfolding opcode_0 opcode_1 opcode_16 opcode_18 opcode_28 opcode_31
opcode_funs_array =
    opcode_0 ∷ opcode_1 ∷ opcode_2 ∷ opcode_3 ∷ opcode_4 ∷ opcode_5 ∷ opcode_6 ∷ opcode_7 ∷ opcode_8
    ∷ opcode_9 ∷ opcode_10 ∷ opcode_11 ∷ opcode_12 ∷ opcode_13 ∷ opcode_14 ∷ opcode_15 ∷ opcode_16
    ∷ not_an_ins ∷ opcode_18 ∷ not_an_ins ∷ opcode_20 ∷ opcode_21 ∷ opcode_22 ∷ opcode_23
    ∷ opcode_24 ∷ opcode_25 ∷ opcode_26 ∷ opcode_27 ∷ opcode_28 ∷ not_an_ins ∷ not_an_ins
    ∷ opcode_31 ∷ opcode_32 ∷ opcode_33 ∷ opcode_34 ∷ opcode_35 ∷ opcode_36 ∷ opcode_37 ∷ opcode_38
    ∷ opcode_39 ∷ opcode_40 ∷ opcode_41 ∷ opcode_42 ∷ opcode_43 ∷ opcode_44 ∷ opcode_45 ∷ opcode_46
    ∷ opcode_47 ∷ opcode_48 ∷ not_an_ins ∷ opcode_50 ∷ opcode_51 ∷ opcode_52 ∷ not_an_ins
    ∷ opcode_54 ∷ opcode_55 ∷ opcode_56 ∷ not_an_ins ∷ opcode_58 ∷ opcode_59 ∷ opcode_60
    ∷ not_an_ins ∷ opcode_62 ∷ opcode_63 ∷ []

-- Which routine `findInstrCase` calls.
unfoldable pub find_instr_case : Handler
unfolding opcode_funs_array
find_instr_case i = select opcode_funs_array i.opcode i

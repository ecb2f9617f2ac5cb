-- ===== src/Emit/Mtc0.antt =====
-- Translation_IPE.cpp: mtc0 and dmtc0, case by case of the register.
use type_ii_hypervisor_code.Common.{◌||◌, ◌==◌, if◌then◌else◌, List, [], ◌∷◌, ◌++◌}
use type_ii_hypervisor_code.Instr.{IInfo}
use type_ii_hypervisor_code.Emit.Control.{checking_previlige}
use type_ii_hypervisor_code.Layout.{
  control_from_compare, control_from_countwrite, control_from_entryhi, opcode_addi, opcode_andi,
  opcode_dins, opcode_dinsu, opcode_dsll32, opcode_dsrl32, opcode_ins, opcode_lui, opcode_special3,
  opcode_srl, opcode_zero, temp1, temp2, temp3,
}
use type_ii_hypervisor_code.Emit.{HostIns, call_c, load_cp, load_gp, sel, set_mark, store_cp}

unfoldable pub mtc0_0 : IInfo → List HostIns
mtc0_0 i =
    if (sel i) == 0
    then load_gp temp1 i.rt
      ∷ HostIns.i_word opcode_addi 0 temp2 0x003f
      ∷ HostIns.r_word opcode_zero temp2 temp1 temp1 0 36
      ∷ store_cp temp1 i.rd (sel i)
      ∷ []
    else load_gp temp1 i.rt ∷ store_cp temp1 i.rd (sel i) ∷ []

unfoldable pub mtc0_2 : IInfo → List HostIns
mtc0_2 i =
    load_gp temp1 i.rt
    ∷ ((if (sel i) == 0
          then HostIns.r_word opcode_special3 0 temp1 31 30 opcode_ins
            ∷ HostIns.r_word opcode_special3 0 temp1 31 0 opcode_dinsu
            ∷ []
          else [])
        ++ (store_cp temp1 i.rd (sel i) ∷ []))

unfoldable pub mtc0_4 : IInfo → List HostIns
mtc0_4 i =
    if (sel i) == 0
    then load_gp temp1 i.rt
      ∷ HostIns.i_word opcode_lui 0 temp2 0xffff
      ∷ HostIns.i_word opcode_addi temp2 temp2 0xfff0
      ∷ HostIns.r_word opcode_zero 0 temp2 temp2 32 60
      ∷ HostIns.r_word opcode_zero 0 temp2 temp2 32 63
      ∷ HostIns.r_word opcode_zero temp2 temp1 temp1 0 36
      ∷ store_cp temp1 i.rd (sel i)
      ∷ []
    else load_gp temp1 i.rt ∷ store_cp temp1 i.rd (sel i) ∷ []

unfoldable pub mtc0_5 : IInfo → List HostIns
mtc0_5 i =
    load_gp temp1 i.rt
    ∷ ((if (sel i) == 0
          then HostIns.r_word opcode_zero 0 temp1 temp2 13 opcode_srl
            ∷ HostIns.r_word opcode_special3 temp2 temp1 28 13 opcode_dins
            ∷ []
          else if (sel i) == 1
          then HostIns.r_word opcode_special3 0 temp1 28 0 opcode_dins ∷ []
          else [])
        ++ (store_cp temp1 i.rd (sel i) ∷ []))

unfoldable pub mtc0_6 : IInfo → List HostIns
mtc0_6 i =
    if (sel i) == 0
    then load_gp temp1 i.rt
      ∷ HostIns.i_word opcode_addi 0 temp2 0x003f
      ∷ HostIns.r_word opcode_zero temp2 temp1 temp1 0 36
      ∷ store_cp temp1 i.rd (sel i)
      ∷ store_cp temp2 1 (sel i)
      ∷ []
    else load_gp temp1 i.rt ∷ store_cp temp1 i.rd (sel i) ∷ []

unfoldable pub mtc0_7 : IInfo → List HostIns
mtc0_7 i =
    if (sel i) == 0
    then load_gp temp1 i.rt
      ∷ HostIns.i_word opcode_lui 0 temp2 0x0
      ∷ HostIns.i_word opcode_addi temp2 temp2 0x003f
      ∷ HostIns.r_word opcode_zero temp2 temp1 temp1 0 36
      ∷ HostIns.r_word opcode_zero 0 temp1 temp1 32 60
      ∷ HostIns.r_word opcode_zero 0 temp1 temp1 32 63
      ∷ store_cp temp1 i.rd (sel i)
      ∷ []
    else load_gp temp1 i.rt ∷ store_cp temp1 i.rd (sel i) ∷ []

unfoldable pub mtc0_9 : IInfo → List HostIns
mtc0_9 i =
    if (sel i) == 0
    then load_gp temp1 i.rt
      ∷ HostIns.r_word opcode_zero 0 temp1 temp1 0 opcode_dsll32
      ∷ HostIns.r_word opcode_zero 0 temp1 temp1 0 opcode_dsrl32
      ∷ store_cp temp1 i.rd (sel i)
      ∷ (set_mark temp3 control_from_countwrite ++ call_c)
    else if (sel i) == 7
    then load_gp temp1 i.rt
      ∷ HostIns.i_word opcode_lui 0 temp2 0xb800
      ∷ HostIns.r_word opcode_zero temp2 temp1 temp1 0 37
      ∷ store_cp temp1 i.rd (sel i)
      ∷ load_cp temp1 9 7
      ∷ load_cp temp3 12 1
      ∷ HostIns.i_word opcode_andi temp1 temp2 0x70
      ∷ HostIns.r_word opcode_zero 0 temp2 temp2 25 56
      ∷ HostIns.r_word opcode_zero temp2 temp3 temp3 0 37
      ∷ HostIns.i_word opcode_andi temp1 temp2 0x380
      ∷ HostIns.r_word opcode_zero 0 temp2 temp2 19 56
      ∷ HostIns.r_word opcode_zero temp2 temp3 temp3 0 37
      ∷ store_cp temp3 12 1
      ∷ []
    else load_gp temp1 i.rt ∷ store_cp temp1 i.rd (sel i) ∷ []

unfoldable pub mtc0_10 : IInfo → List HostIns
mtc0_10 i =
    load_gp temp1 i.rt
    ∷ ((if (sel i) == 0
          then HostIns.r_word opcode_special3 0 temp1 32 17 opcode_dinsu
            ∷ HostIns.r_word opcode_special3 0 temp1 12 8 opcode_dins
            ∷ []
          else [])
        ++ (store_cp temp1 i.rd (sel i) ∷ (set_mark temp1 control_from_entryhi ++ call_c)))

unfoldable pub mtc0_11 : IInfo → List HostIns
mtc0_11 i =
    if (sel i) == 0
    then load_cp temp1 13 0
      ∷ HostIns.i_word opcode_lui 0 temp2 0xffff
      ∷ HostIns.i_word opcode_addi temp2 temp2 0x7fff
      ∷ HostIns.r_word opcode_zero temp2 temp1 temp1 0 36
      ∷ store_cp temp1 13 0
      ∷ load_gp temp1 i.rt
      ∷ HostIns.r_word opcode_zero 0 temp1 temp1 0 opcode_dsll32
      ∷ HostIns.r_word opcode_zero 0 temp1 temp1 0 opcode_dsrl32
      ∷ store_cp temp1 i.rd (sel i)
      ∷ (set_mark temp3 control_from_compare ++ call_c)
    else load_gp temp1 i.rt ∷ store_cp temp1 i.rd (sel i) ∷ []

unfoldable pub mtc0_12 : IInfo → List HostIns
mtc0_12 i =
    if (sel i) == 0
    then load_gp temp1 i.rt
      ∷ HostIns.i_word opcode_lui 0 temp2 0x50f8
      ∷ HostIns.i_word opcode_addi temp2 temp2 0xffff
      ∷ HostIns.r_word opcode_zero temp2 temp1 temp1 0 36
      ∷ HostIns.r_word opcode_zero 0 temp1 temp1 32 60
      ∷ HostIns.r_word opcode_zero 0 temp1 temp1 32 63
      ∷ store_cp temp1 i.rd (sel i)
      ∷ []
    else if (sel i) == 1
    then load_gp temp1 i.rt
      ∷ HostIns.i_word opcode_lui 0 temp2 0xfc00
      ∷ HostIns.i_word opcode_addi temp2 temp2 0x0000
      ∷ HostIns.r_word opcode_zero temp2 temp1 temp1 0 36
      ∷ HostIns.r_word opcode_zero 0 temp1 temp1 32 60
      ∷ HostIns.r_word opcode_zero 0 temp1 temp1 32 63
      ∷ store_cp temp1 i.rd (sel i)
      ∷ []
    else if (sel i) == 2
    then store_cp 0 i.rd (sel i) ∷ []
    else load_gp temp1 i.rt ∷ store_cp temp1 i.rd (sel i) ∷ []

unfoldable pub mtc0_13 : IInfo → List HostIns
mtc0_13 i =
    if (sel i) == 0
    then load_gp temp1 i.rt
      ∷ HostIns.i_word opcode_lui 0 temp2 0xfcc0
      ∷ HostIns.i_word opcode_addi temp2 temp2 0xff7c
      ∷ HostIns.r_word opcode_zero temp2 temp1 temp1 0 36
      ∷ HostIns.r_word opcode_zero 0 temp1 temp1 32 60
      ∷ HostIns.r_word opcode_zero 0 temp1 temp1 32 63
      ∷ store_cp temp1 i.rd (sel i)
      ∷ []
    else load_gp temp1 i.rt ∷ store_cp temp1 i.rd (sel i) ∷ []

unfoldable pub mtc0_15 : IInfo → List HostIns
mtc0_15 i =
    if (sel i) == 0
    then []
    else if (sel i) == 1
    then load_gp temp1 i.rt
      ∷ load_cp temp2 i.rd (sel i)
      ∷ HostIns.r_word opcode_special3 temp2 temp1 9 0 opcode_ins
      ∷ HostIns.i_word opcode_lui 0 temp2 0xbfff
      ∷ HostIns.i_word opcode_addi temp2 temp2 0xf3ff
      ∷ HostIns.r_word opcode_zero temp2 temp1 temp1 0 36
      ∷ HostIns.i_word opcode_lui 0 temp2 0x8000
      ∷ HostIns.i_word opcode_addi temp2 temp2 0x0000
      ∷ HostIns.r_word opcode_zero temp2 temp1 temp1 0 37
      ∷ HostIns.r_word opcode_zero 0 temp1 temp1 32 60
      ∷ HostIns.r_word opcode_zero 0 temp1 temp1 32 63
      ∷ store_cp temp1 i.rd (sel i)
      ∷ []
    else load_gp temp1 i.rt ∷ store_cp temp1 i.rd (sel i) ∷ []

unfoldable pub mtc0_20 : IInfo → List HostIns
mtc0_20 i =
    if (sel i) == 0
    then load_gp temp1 i.rt
      ∷ HostIns.i_word opcode_lui 0 temp2 0xffff
      ∷ HostIns.i_word opcode_addi temp2 temp2 0xfff0
      ∷ HostIns.r_word opcode_zero 0 temp2 temp2 32 60
      ∷ HostIns.r_word opcode_zero 0 temp2 temp2 32 63
      ∷ HostIns.r_word opcode_zero temp2 temp1 temp1 0 36
      ∷ store_cp temp1 i.rd (sel i)
      ∷ []
    else load_gp temp1 i.rt ∷ store_cp temp1 i.rd (sel i) ∷ []

unfoldable pub mtc0_default : IInfo → List HostIns
mtc0_default i = load_gp temp1 i.rt ∷ store_cp temp1 i.rd (sel i) ∷ []

unfoldable pub mtc0 : IInfo → List HostIns
mtc0 i =
    checking_previlige
    ++ (if i.rd == 0 || i.rd == 1
        then mtc0_0 i
        else if i.rd == 2 || i.rd == 3
        then mtc0_2 i
        else if i.rd == 4
        then mtc0_4 i
        else if i.rd == 5
        then mtc0_5 i
        else if i.rd == 6
        then mtc0_6 i
        else if i.rd == 7
        then mtc0_7 i
        else if i.rd == 9
        then mtc0_9 i
        else if i.rd == 10
        then mtc0_10 i
        else if i.rd == 11
        then mtc0_11 i
        else if i.rd == 12
        then mtc0_12 i
        else if i.rd == 13
        then mtc0_13 i
        else if i.rd == 15
        then mtc0_15 i
        else if i.rd == 20
        then mtc0_20 i
        else mtc0_default i)

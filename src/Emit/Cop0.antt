-- ===== src/Emit/Cop0.antt =====
-- Translation_IPE.cpp: the move from coprocessor 0, the TLB instructions, di and ei.
use type_ii_hypervisor_code.Common.{not, ◌&&◌, ◌||◌, ◌==◌, if◌then◌else◌, List, [], ◌∷◌, ◌++◌}
use type_ii_hypervisor_code.Instr.{IInfo}
use type_ii_hypervisor_code.Emit.Control.{checking_previlige}
use type_ii_hypervisor_code.Layout.{
  control_from_tlbp, control_from_tlbr, control_from_tlbwi, control_from_tlbwr, opcode_addi,
  opcode_lui, opcode_ori, opcode_special3, opcode_zero, temp1, temp2, temp3,
}
use type_ii_hypervisor_code.Emit.{HostIns, call_c, load_cp, sel, set_mark, store_cp, store_gp}

unfoldable pub mfc0 : IInfo → List HostIns
mfc0 i =
    checking_previlige
    ++ ((if i.rd == 9 && ((sel i) == 0 || (sel i) == 6)
          then HostIns.r_word opcode_special3 0 temp1 31 0 59
            ∷ HostIns.r_word 0 temp1 temp1 temp1 0 45
            ∷ HostIns.i_word opcode_ori 0 temp2 3
            ∷ HostIns.r_word opcode_zero temp1 temp2 0 0 31
            ∷ HostIns.r_word 0 0 0 temp1 0 18
            ∷ store_cp temp1 9 6
            ∷ store_cp temp1 9 0
            ∷ []
          else [])
        ++ (load_cp temp1 i.rd (sel i) ∷ store_gp temp1 i.rt ∷ []))

unfoldable pub tlbr : List HostIns
tlbr = checking_previlige ++ (set_mark temp3 control_from_tlbr ++ call_c)

unfoldable pub tlbwi : List HostIns
tlbwi = checking_previlige ++ (set_mark temp3 control_from_tlbwi ++ call_c)

unfoldable pub tlbwr : List HostIns
tlbwr = checking_previlige ++ (set_mark temp3 control_from_tlbwr ++ call_c)

unfoldable pub tlbp : List HostIns
tlbp = checking_previlige ++ (set_mark temp3 control_from_tlbp ++ call_c)

unfoldable pub di : IInfo → List HostIns
di i =
    checking_previlige
    ++ (load_cp temp1 12 (sel i)
        ∷ ((if not (i.rt == 0) then store_gp temp1 i.rt ∷ [] else [])
            ++ (HostIns.i_word opcode_lui 0 temp2 0xffff
                ∷ HostIns.i_word opcode_addi temp2 temp2 0xfffe
                ∷ HostIns.r_word opcode_zero temp2 temp1 temp1 0 36
                ∷ store_cp temp1 12 (sel i)
                ∷ [])))

unfoldable pub ei : IInfo → List HostIns
ei i =
    checking_previlige
    ++ (load_cp temp1 12 (sel i)
        ∷ ((if not (i.rt == 0) then store_gp temp1 i.rt ∷ [] else [])
            ++ (HostIns.i_word opcode_ori temp1 temp1 1 ∷ store_cp temp1 12 (sel i) ∷ [])))

-- ===== src/Emit/Multiplier.antt =====
-- Translation_IPE.cpp: the multiplier registers of the processor.
use type_ii_hypervisor_code.Common.{List, [], ◌∷◌}
use type_ii_hypervisor_code.Instr.{IInfo}
use type_ii_hypervisor_code.Emit.Arithmetic.{unprev_r}
use type_ii_hypervisor_code.Layout.{mpl0, mpl1, mpl2, opcode_caviumaddition, p0, p1, p2, temp1}
use type_ii_hypervisor_code.Emit.{HostIns, load_gp, store_gp}

unfoldable pub mtm0 : IInfo → List HostIns
mtm0 i =
    load_gp temp1 i.rs ∷ store_gp temp1 mpl0 ∷ store_gp 0 p0 ∷ store_gp 0 p1 ∷ store_gp 0 p2 ∷ []

unfoldable pub mtm1 : IInfo → List HostIns
mtm1 i =
    load_gp temp1 i.rs ∷ store_gp temp1 mpl1 ∷ store_gp 0 p0 ∷ store_gp 0 p1 ∷ store_gp 0 p2 ∷ []

unfoldable pub mtm2 : IInfo → List HostIns
mtm2 i =
    load_gp temp1 i.rs ∷ store_gp temp1 mpl2 ∷ store_gp 0 p0 ∷ store_gp 0 p1 ∷ store_gp 0 p2 ∷ []

unfoldable pub mtp0 : IInfo → List HostIns
mtp0 i = load_gp temp1 i.rs ∷ store_gp temp1 p0 ∷ []

unfoldable pub mtp1 : IInfo → List HostIns
mtp1 i = load_gp temp1 i.rs ∷ store_gp temp1 p1 ∷ []

unfoldable pub mtp2 : IInfo → List HostIns
mtp2 i = load_gp temp1 i.rs ∷ store_gp temp1 p2 ∷ []

unfoldable pub v3mulu : IInfo → List HostIns
v3mulu i =
    load_gp temp1 mpl0
    ∷ HostIns.r_word opcode_caviumaddition temp1 0 0 0 8
    ∷ load_gp temp1 mpl1
    ∷ HostIns.r_word opcode_caviumaddition temp1 0 0 0 12
    ∷ load_gp temp1 mpl2
    ∷ HostIns.r_word opcode_caviumaddition temp1 0 0 0 13
    ∷ load_gp temp1 p0
    ∷ HostIns.r_word opcode_caviumaddition temp1 0 0 0 9
    ∷ load_gp temp1 p1
    ∷ HostIns.r_word opcode_caviumaddition temp1 0 0 0 10
    ∷ load_gp temp1 p2
    ∷ HostIns.r_word opcode_caviumaddition temp1 0 0 0 11
    ∷ (unprev_r i)

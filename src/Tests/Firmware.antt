-- ===== src/Tests/Firmware.antt =====
-- The loading of the firmware at a concrete input.
use Prim.Native.String.{String}
use text.Mathlib.Text.{◌==◌ as str_eq}
use type_ii_hypervisor_code.Common.{ℕ, if◌then◌else◌, ◌==◌, ◌^◌, Option, some, none, List, [], ◌∷◌}
use type_ii_hypervisor_code.MemoryMap.{Regions}
use type_ii_hypervisor_code.CommandLine.{CString, Specifications}

abbrev opened : String → Option (List ℕ)
opened path =
    if str_eq path "u-boot.bin"
    then some (0x3c ∷ 0x1d ∷ [])
    else if str_eq path "vmlinux"
    then some (0x40 ∷ 0x08 ∷ 0x60 ∷ [])
    else none

abbrev files : CString → Option (List ℕ)
files (CString.live path) = opened path
files CString.dangling = none

-- As they are while the strings are still there.
abbrev spec : Specifications
spec = record {
  numcores = 2;
  uboot_path = CString.live "u-boot.bin";
  kernel_path = CString.live "vmlinux";
}

abbrev two_regions : Regions
two_regions = record {
  gpa_map = λ k.
      if k == 0
      then some (record { hva = 2 ^ 40; size = 2 ^ 28; map_idx = 0 })
      else if k == 2 ^ 28
      then some (record { hva = 2 ^ 41; size = 2 ^ 28; map_idx = 1 })
      else none;
  calls = 0;
}

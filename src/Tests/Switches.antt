-- ===== src/Tests/Switches.antt =====
-- The command line at a concrete input.
use Prim.Native.String.{String}
use type_ii_hypervisor_code.Common.{ℕ, ◌≡◌, refl, true, if◌then◌else◌, List, [], ◌∷◌, ◌++◌, some}
use type_ii_hypervisor_code.CommandLine.{
  ClParser, CString, Specifications, parse_args, get_arg, set_num_cores, get_specs,
}
use type_ii_hypervisor_code.CommandLine.Switches.{NotIn, str_ne, get_arg_lem}
use text.Mathlib.Text.{◌==◌ as str_eq}

abbrev before : List String
before = "hypervisor" ∷ "-cores" ∷ "4" ∷ []

abbrev behind : List String
behind = "-uboot" ∷ "u-boot.bin" ∷ "-kernel" ∷ "vmlinux" ∷ []

abbrev command : List String
command = before ++ "-cores" ∷ "2" ∷ behind

get_arg_lem_example :
    (get_arg (parse_args command true) "-cores" ≡ "2")
    × (get_arg (parse_args behind true) "-cores" ≡ "")
get_arg_lem_example =
    let rest : NotIn "-cores" behind = (
      str_ne "-cores" "-uboot" refl,
      (
        str_ne "-cores" "u-boot.bin" refl,
        (str_ne "-cores" "-kernel" refl, (str_ne "-cores" "vmlinux" refl, tt)),
      ),
    ) in
    get_arg_lem "-cores" "2" before behind behind refl (str_ne "-cores" "2" refl, rest) rest

-- Enough of `atoi` for these arguments.
abbrev small_atoi : String → ℕ
small_atoi s = if str_eq s "2" then 2 else if str_eq s "16" then 16 else 0

abbrev switches : ClParser
switches = parse_args command true

abbrev two_cores : Specifications
two_cores = record { numcores = 2; uboot_path = CString.dangling; kernel_path = CString.dangling }

specs_from_command : get_specs small_atoi switches ≡ some two_cores
unfolding get_specs get_arg parse_args set_num_cores
specs_from_command = refl

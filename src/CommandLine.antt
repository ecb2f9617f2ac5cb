-- ===== src/CommandLine.antt =====
-- CLParser.h, CLParser.cpp, Specifications.h and Specifications.cpp: the command line. The
-- pointers of `c_str` are kept after their string has gone, so they dangle. `atoi` of the C library is an argument, whose
-- `int` is given as 32 bits.
pub mod Switches
use Prim.Native.String.{String}
use text.Mathlib.Text.{◌==◌ as str_eq, starts_with}
use type_ii_hypervisor_code.Common.{
  ℕ, ◌^◌, if◌then◌else◌, Bool, true, false, not, ◌&&◌, ltb, Option, none, some, List, [], ◌∷◌,
}

-- `map<string,string>`, the newest entry first.
abbrev pub SwitchMap : Type 0
SwitchMap = List (String × String)

-- A later entry hides an earlier one.
unfoldable pub lookup : String → SwitchMap → Option String
lookup s [] = none
lookup s ((k, v) ∷ m) = if str_eq s k then some v else lookup s m

-- An argument and the one behind it, for each two neighbours.
unfoldable pub map_switches : List String → SwitchMap → SwitchMap
map_switches [] m = m
map_switches (a ∷ rest) m = elim rest [
  | [] ↦ m
  | b ∷ _ ↦ map_switches rest (if starts_with a "-" then (a, b) ∷ m else m)
]

pub record ClParser : Type 0 where
  pub argv : List String
  pub switches_on : Bool
  pub switch_map : SwitchMap

unfoldable pub parse_args : List String → Bool → ClParser
unfolding map_switches
parse_args argv switches_on = record {
  argv = argv;
  switches_on = switches_on;
  switch_map = if switches_on then map_switches argv [] else [];
}

unfoldable pub get_arg : ClParser → String → String
unfolding lookup
get_arg p s =
    if not p.switches_on then "" else elim (lookup s p.switch_map) [ none ↦ "" | some v ↦ v ]

abbrev pub max_cores : ℕ
max_cores = 16

-- A `const char *`: it points to a string that is still there, or to one that is gone.
pub data CString : Type 0 where
  live : String → CString
  dangling : CString

pub record Specifications : Type 0 where
  pub numcores : ℕ
  pub uboot_path : CString
  pub kernel_path : CString

-- An `int` above 0 and below MAXCORES.
unfoldable pub set_num_cores : ℕ → ℕ
set_num_cores num = if (ltb 0 num && ltb num (2 ^ 31)) && ltb num max_cores then num else 1

-- `none` is the null pointer. Each path is the `c_str()` of `temp`, which is assigned again, and
-- goes out of scope at the end.
unfoldable pub get_specs : (String → ℕ) → ClParser → Option Specifications
unfolding get_arg set_num_cores
get_specs atoi p =
    if str_eq (get_arg p "-h") "help"
    then none
    else if str_eq (get_arg p "-cores") ""
    then none
    else if str_eq (get_arg p "-uboot") ""
    then none
    else if str_eq (get_arg p "-kernel") ""
    then none
    else some (record {
      numcores = set_num_cores (atoi (get_arg p "-cores"));
      uboot_path = CString.dangling;
      kernel_path = CString.dangling;
    })

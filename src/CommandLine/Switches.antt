-- ===== src/CommandLine/Switches.antt =====
-- CLParser.cpp: what the switches of a command line come to.
use Prim.Native.String.{String}
use text.Mathlib.Text.{◌==◌ as str_eq, starts_with}
use text.Mathlib.TextEquality.{eq_iff}
use mathlib.Core.Bool.{true≢false}
use type_ii_hypervisor_code.Common.{
  ◌≡◌, ◌≢◌, refl, ap, sym, ◌∙◌, if◌then◌else◌, Bool, true, false, Bool-cases, inl, inr, some, List,
  [], ◌∷◌, ◌++◌,
}
use type_ii_hypervisor_code.CommandLine.{SwitchMap, lookup, map_switches, parse_args, get_arg}

str_eq_refl : (s : String) → str_eq s s ≡ true
str_eq_refl s = (eq_iff s s).1 refl

str_eq-ne : (s t : String) → s ≢ t → str_eq s t ≡ false
str_eq-ne s t h = elim (Bool-cases (str_eq s t)) [
  | inl same ↦ absurd (h ((eq_iff s t).0 same))
  | inr other ↦ other
]

abbrev pub NotIn : String → List String → Type 0
NotIn s [] = Unit
NotIn s (a ∷ rest) = (s ≢ a) × NotIn s rest

-- One step leaves what another switch has.
lookup-put :
    (s a b : String) (on : Bool) (m : SwitchMap)
    → s ≢ a
    → lookup s (if on then (a, b) ∷ m else m) ≡ lookup s m
unfolding lookup
lookup-put s a b true m h = rw (str_eq-ne s a h) refl
lookup-put s a b false m h = refl

lookup_absent :
    (s : String) (args : List String) (m : SwitchMap)
    → NotIn s args
    → lookup s (map_switches args m) ≡ lookup s m
unfolding map_switches
lookup_absent s [] m h = refl
lookup_absent s (a ∷ []) m h = refl
lookup_absent s (a ∷ b ∷ rest) m (h, k) =
    lookup_absent s (b ∷ rest) (if starts_with a "-" then (a, b) ∷ m else m) k
    ∙ lookup-put s a b (starts_with a "-") m h

lookup_last :
    (s v : String) (before behind : List String) (m : SwitchMap)
    → starts_with s "-" ≡ true
    → NotIn s (v ∷ behind)
    → lookup s (map_switches (before ++ s ∷ v ∷ behind) m) ≡ some v
unfolding map_switches lookup
lookup_last s v [] behind m dash h =
    ap (λ b. lookup s (map_switches (v ∷ behind) (if b then (s, v) ∷ m else m))) dash
    ∙ lookup_absent s (v ∷ behind) ((s, v) ∷ m) h
    ∙ rw (str_eq_refl s) refl
lookup_last s v (a ∷ []) behind m dash h = lookup_last s v [] behind _ dash h
lookup_last s v (a ∷ b ∷ before) behind m dash h = lookup_last s v (b ∷ before) behind _ dash h

-- The value of a switch, which begins with '-', is the argument behind its last occurrence; and a
-- switch that is not an argument has the empty value.
pub get_arg_lem :
    (s v : String) (before behind args : List String)
    → starts_with s "-" ≡ true
    → NotIn s (v ∷ behind)
    → NotIn s args
    → (get_arg (parse_args (before ++ s ∷ v ∷ behind) true) s ≡ v)
      × (get_arg (parse_args args true) s ≡ "")
unfolding get_arg parse_args lookup
get_arg_lem s v before behind args dash last absent =
    (rw (lookup_last s v before behind [] dash last) refl, rw (lookup_absent s args [] absent) refl)

pub str_ne : (s t : String) → str_eq s t ≡ false → s ≢ t
str_ne s t h e = absurd (true≢false (sym ((eq_iff s t).1 e) ∙ h))

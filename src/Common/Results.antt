-- ===== src/Common/Results.antt =====
-- What a function of the source comes to, where it can end the process, do something that the
-- language leaves undefined, or wait for another thread.
use mathlib.Core.Path.{◌≡◌, refl}
use mathlib.Core.Bool.{Bool, true, false}
use type_ii_hypervisor_code.Common.Tests.{if◌then◌else◌}
use mathlib.Core.Logic.{◌⊎◌, inl, inr, ◌≢◌}

-- What a function comes to: its result, `exit(1)`, undefined behaviour such as the use of a value that
-- was not returned, or a loop that goes round until another thread has changed what it tests.
pub data Result {ℓ} (A : Type ℓ) : Type ℓ where
  ok : A → Result A
  exited : Result A
  undefined : Result A
  waiting : Result A

unfoldable pub and_then {ℓ} : {A B : Type ℓ} → Result A → (A → Result B) → Result B
and_then (Result.ok a) f = f a
and_then Result.exited f = Result.exited
and_then Result.undefined f = Result.undefined
and_then Result.waiting f = Result.waiting

pub Result-cases {ℓ} :
    {A : Type ℓ} (x : Result A)
    → ((a : A) × (x ≡ Result.ok a))
      ⊎ (x ≡ Result.exited)
      ⊎ (x ≡ Result.undefined)
      ⊎ (x ≡ Result.waiting)
Result-cases (Result.ok a) = inl (a, refl)
Result-cases Result.exited = inr (inl refl)
Result-cases Result.undefined = inr (inr (inl refl))
Result-cases Result.waiting = inr (inr (inr refl))

pub and_then-exited {ℓ} :
    {A B : Type ℓ} (x : Result A) (f : A → Result B)
    → x ≢ Result.undefined
    → x ≢ Result.waiting
    → ((a : A) → f a ≡ Result.exited)
    → and_then x f ≡ Result.exited
unfolding and_then
and_then-exited (Result.ok a) f known ends h = h a
and_then-exited Result.exited f known ends h = refl
and_then-exited Result.undefined f known ends h = absurd (known refl)
and_then-exited Result.waiting f known ends h = absurd (ends refl)

pub and_then_assoc {ℓ} :
    {A B C : Type ℓ} (x : Result A) (f : A → Result B) (g : B → Result C)
    → and_then (and_then x f) g ≡ and_then x (λ a. and_then (f a) g)
unfolding and_then
and_then_assoc (Result.ok a) f g = refl
and_then_assoc Result.exited f g = refl
and_then_assoc Result.undefined f g = refl
and_then_assoc Result.waiting f g = refl

-- A property of the result, if there is one.
abbrev pub Holds {ℓ} : {A : Type ℓ} → (A → Type 0) → Result A → Type 0
Holds P (Result.ok a) = P a
Holds P Result.exited = Unit
Holds P Result.undefined = Unit
Holds P Result.waiting = Unit

pub and_then-Holds {ℓ} :
    {A B : Type ℓ} (P : A → Type 0) (Q : B → Type 0) (x : Result A) (f : A → Result B)
    → Holds P x
    → ((a : A) → P a → Holds Q (f a))
    → Holds Q (and_then x f)
unfolding and_then
and_then-Holds P Q (Result.ok a) f h step = step a h
and_then-Holds P Q Result.exited f h step = tt
and_then-Holds P Q Result.undefined f h step = tt
and_then-Holds P Q Result.waiting f h step = tt

pub and_then_cong {ℓ} :
    {A B : Type ℓ} (P : A → Type 0) (x : Result A) (f g : A → Result B)
    → Holds P x
    → ((a : A) → P a → f a ≡ g a)
    → and_then x f ≡ and_then x g
unfolding and_then
and_then_cong P (Result.ok a) f g h same = same a h
and_then_cong P Result.exited f g h same = refl
and_then_cong P Result.undefined f g h same = refl
and_then_cong P Result.waiting f g h same = refl

pub Holds-all {ℓ} : {A : Type ℓ} (P : A → Type 0) (x : Result A) → ((a : A) → P a) → Holds P x
Holds-all P (Result.ok a) h = h a
Holds-all P Result.exited h = tt
Holds-all P Result.undefined h = tt
Holds-all P Result.waiting h = tt

pub Holds-map {ℓ} :
    {A : Type ℓ} (P Q : A → Type 0) (x : Result A) → ((a : A) → P a → Q a) → Holds P x → Holds Q x
Holds-map P Q (Result.ok a) step h = step a h
Holds-map P Q Result.exited step h = tt
Holds-map P Q Result.undefined step h = tt
Holds-map P Q Result.waiting step h = tt

pub Holds-if {ℓ} :
    {A : Type ℓ} (P : A → Type 0) (b : Bool) (x y : Result A)
    → Holds P x
    → Holds P y
    → Holds P (if b then x else y)
Holds-if P true x y h k = h
Holds-if P false x y h k = k

-- A result, with a property of it.
abbrev pub Succeeds {ℓ} : {A : Type ℓ} → (A → Type 0) → Result A → Type 0
Succeeds P (Result.ok a) = P a
Succeeds P Result.exited = ⊥
Succeeds P Result.undefined = ⊥
Succeeds P Result.waiting = ⊥

pub and_then-Succeeds {ℓ} :
    {A B : Type ℓ} (P : A → Type 0) (Q : B → Type 0) (x : Result A) (f : A → Result B)
    → Succeeds P x
    → ((a : A) → P a → Succeeds Q (f a))
    → Succeeds Q (and_then x f)
unfolding and_then
and_then-Succeeds P Q (Result.ok a) f h step = step a h
and_then-Succeeds P Q Result.exited f h step = elim h [ ]
and_then-Succeeds P Q Result.undefined f h step = elim h [ ]
and_then-Succeeds P Q Result.waiting f h step = elim h [ ]

pub Succeeds-map {ℓ} :
    {A : Type ℓ} (P Q : A → Type 0) (x : Result A)
    → ((a : A) → P a → Q a)
    → Succeeds P x
    → Succeeds Q x
Succeeds-map P Q (Result.ok a) step h = step a h
Succeeds-map P Q Result.exited step h = elim h [ ]
Succeeds-map P Q Result.undefined step h = elim h [ ]
Succeeds-map P Q Result.waiting step h = elim h [ ]

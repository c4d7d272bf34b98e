-- ===== src/Base/Results.antt =====
-- Results of fallible Go functions, Boolean tests and case splits.
use Prim.Native.Nat.{ℕ, compare, Ordering}
use Prim.Native.String.{String}
use mathlib.Core.Path.{◌≡◌, refl}
use native.Mathlib.Omega.{arith}
use text.Mathlib.Text.{◌==◌}
use text.Mathlib.TextEquality.{eq_iff}
use mathlib.Core.Logic.{◌⊎◌, inl, inr, ◌≢◌}
use mathlib.Core.Bool.{Bool, true, false}
use mathlib.Core.Option.{Option, none, some}

-- `err m` is an error whose `Error()` is `m`.
pub data Result {ℓ} (A : Type ℓ) : Type ℓ where
  ok : A → Result A
  err : String → Result A

infixl 5 ◌>>=◌
abbrev pub ◌>>=◌ {ℓ κ} : {A : Type ℓ} {B : Type κ} (result : Result A) (k : A → Result B) → Result B
ok value >>= k = k value
err message >>= k = err message

-- `if err != nil { return ..., errors.New(m) }`
abbrev pub or_say {ℓ} : {A : Type ℓ} → Result A → String → Result A
or_say (ok a) m = ok a
or_say (err e) m = err m

-- The value, or the default that the code goes on with when it drops the error.
abbrev pub ok_or {ℓ} : {A : Type ℓ} → A → Result A → A
ok_or d (ok a) = a
ok_or d (err e) = d

abbrev pub is_ok {ℓ} : {A : Type ℓ} → Result A → Bool
is_ok (ok a) = true
is_ok (err e) = false

abbrev pub or_err {ℓ} : {A : Type ℓ} → Option A → String → Result A
or_err none m = err m
or_err (some a) m = ok a

infix 1 if◌then◌else◌
abbrev pub if◌then◌else◌ {ℓ} : {A : Type ℓ} → Bool → A → A → A
if true then x else y = x
if false then x else y = y

abbrev pub ltb : ℕ → ℕ → Bool
ltb a b = elim (compare a b) [ Ordering.lt ↦ true | _ ↦ false ]

abbrev pub leb : ℕ → ℕ → Bool
leb a b = elim (compare a b) [ Ordering.gt ↦ false | _ ↦ true ]

pub Bool-cases : (b : Bool) → (b ≡ true) ⊎ (b ≡ false)
Bool-cases true = inl refl
Bool-cases false = inr refl

pub Option-cases {ℓ} : {A : Type ℓ} (o : Option A) → (o ≡ none) ⊎ ((a : A) × (o ≡ some a))
Option-cases none = inl refl
Option-cases (some a) = inr (a, refl)

pub Result-cases {ℓ} :
    {A : Type ℓ} (r : Result A) → ((a : A) × (r ≡ ok a)) ⊎ ((e : String) × (r ≡ err e))
Result-cases (ok a) = inl (a, refl)
Result-cases (err e) = inr (e, refl)

-- Inversion of a chain that succeeded.
pub >>=-eq-ok {ℓ κ} :
    {A : Type ℓ} {B : Type κ} (first : Result A) (rest : A → Result B) (answer : B)
    → (first >>= rest) ≡ ok answer
    → (value : A) × (first ≡ ok value) × (rest value ≡ ok answer)
>>=-eq-ok (ok value) rest answer e = (value, refl, e)
>>=-eq-ok (err message) rest answer e = cc

-- Two texts differ, by a test that computes at literals.
pub text_ne : (s t : String) → (s == t) ≡ false → s ≢ t
text_ne s t h e = cc ((eq_iff s t).1 e)

pub or_err-eq-ok {ℓ} :
    {A : Type ℓ} (o : Option A) (m : String) (a : A) → or_err o m ≡ ok a → o ≡ some a
or_err-eq-ok none m a e = cc
or_err-eq-ok (some b) m a e = ground arith

pub ok-injective {ℓ} : {A : Type ℓ} (a b : A) → ok a ≡ ok b → a ≡ b
ok-injective a b e = ground arith

pub err-ne-ok {ℓ} : {A : Type ℓ} {a : A} (m : String) → err m ≢ ok a
err-ne-ok m e = cc

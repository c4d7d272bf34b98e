-- ===== src/Base/Lists.antt =====
-- Lists measured by native numbers, filtered by Boolean tests, and maps as association lists.
use Prim.Native.Nat.{ℕ, suc, ◌+◌}
use Prim.Native.String.{String}
use mathlib.Core.Path.{◌≡◌, refl}
use mathlib.Core.Bool.{Bool, true, false, ◌||◌}
use mathlib.Core.Option.{Option, none, some}
use mathlib.Core.List.{List, [], ◌∷◌, ◌++◌}
use native.Mathlib.Omega.{arith}
use text.Mathlib.Text.{◌==◌}
use text.Mathlib.TextEquality.{eq_iff}
use obligator.Base.Results.{if◌then◌else◌}

module _ {ℓ} {A : Type ℓ} where
  abbrev pub length : List A → ℕ
  length [] = 0
  length (x ∷ xs) = suc (length xs)

  pub length-append : (xs ys : List A) → length (xs ++ ys) ≡ length xs + length ys
  length-append [] ys = omega arith
  length-append (x ∷ xs) ys = omega (arith, length-append xs ys)

  -- The elements that pass a test, as a loop with `append` collects them.
  abbrev pub keep : (A → Bool) → List A → List A
  keep p [] = []
  keep p (x ∷ xs) = if p x then x ∷ keep p xs else keep p xs

  -- A loop that stops at the first element that passes.
  abbrev pub find : (A → Bool) → List A → Option A
  find p [] = none
  find p (x ∷ xs) = if p x then some x else find p xs

  -- Whether such a loop stops early.
  abbrev pub exists : (A → Bool) → List A → Bool
  exists p [] = false
  exists p (x ∷ xs) = p x || exists p xs

  pub find-passes : (p : A → Bool) (xs : List A) (x : A) → find p xs ≡ some x → p x ≡ true
  find-passes p [] x e = cc
  find-passes p (y ∷ xs) x e = ground (arith, find-passes p xs x)

module _ {ℓ κ} {A : Type ℓ} (P : A → Type κ) where
  abbrev pub All : List A → Type κ
  All [] = Unit
  All (x ∷ xs) = P x × All xs

  pub All-append : (xs ys : List A) → All xs → All ys → All (xs ++ ys)
  All-append [] ys h k = k
  All-append (x ∷ xs) ys (p, h) k = (p, All-append xs ys h k)

  pub All-keep : (p : A → Bool) (xs : List A) → All xs → All (keep p xs)
  All-keep p [] h = tt
  All-keep p (x ∷ xs) (q, h) = ground (arith, All-keep p xs h)

  pub All-find :
      (p : A → Bool) (xs : List A) (x : A) → find p xs ≡ some x → All xs → P x × (p x ≡ true)
  All-find p [] x e h = cc
  All-find p (y ∷ xs) x e (q, h) = ground (arith, All-find p xs x)

module _ {ℓ} {V : Type ℓ} where
  -- A Go map with string keys: a key stands at most once.
  abbrev pub lookup : (key : String) → List (String × V) → Option V
  lookup key [] = none
  lookup key ((other, value) ∷ rest) = if other == key then some value else lookup key rest

  abbrev pub insert : (key : String) (new : V) → List (String × V) → List (String × V)
  insert key new [] = (key, new) ∷ []
  insert key new (entry ∷ rest) =
      let later = insert key new rest in if entry.0 == key then (key, new) ∷ rest else entry ∷ later

  abbrev pub delete : (key : String) → List (String × V) → List (String × V)
  delete key [] = []
  delete key (entry ∷ rest) =
      let later = delete key rest in if entry.0 == key then later else entry ∷ later

  pub lookup-insert :
      (written read : String) (new : V) (all : List (String × V))
      → lookup read (insert written new all)
        ≡ (if written == read then some new else lookup read all)
  lookup-insert written read new [] = refl
  lookup-insert written read new ((key, value) ∷ rest) = ground (
    arith,
    eq_iff written read,
    eq_iff key written,
    eq_iff key read,
    lookup-insert written read new rest,
  )

  pub lookup-delete :
      (gone read : String) (all : List (String × V))
      → lookup read (delete gone all) ≡ (if gone == read then none else lookup read all)
  lookup-delete gone read [] = ground arith
  lookup-delete gone read ((key, value) ∷ rest) =
      ground
        (arith, eq_iff gone read, eq_iff key gone, eq_iff key read, lookup-delete gone read rest)

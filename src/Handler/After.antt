-- ===== src/Handler/After.antt =====
-- Postconditions of a handler: `After P Q o` holds when `P` holds of the state that a handler has
-- returned or panicked with, and `Q` of the value and the state that it goes on with.
use mathlib.Core.Logic.{◌≢◌}
use mathlib.Core.Path.{◌≡◌, refl}
use obligator.Handler.{Outcome, next, stop, panic, M, then_run}

abbrev pub After : {S A : Type 0} → (S → Type 0) → (A → S → Type 0) → Outcome S A → Type 0
After P Q (next a s) = Q a s
After P Q (stop s) = P s
After P Q (panic s) = P s

module _ {S A B : Type 0} (P : S → Type 0) (Q : A → S → Type 0) (R : B → S → Type 0) where
  pub then_run-After :
      (o : Outcome S A) (f : A → M S B)
      → After P Q o
      → ((a : A) (s : S) → Q a s → After P R (f a s))
      → After P R (then_run o f)
  then_run-After (next a s) f h k = k a s h
  then_run-After (stop s) f h k = h
  then_run-After (panic s) f h k = h

module _ {S A B : Type 0} where
  -- Inversion of a step that went on.
  pub then_run-next :
      (o : Outcome S A) (f : A → M S B) (b : B) (s' : S)
      → then_run o f ≡ next b s'
      → (a : A) × (s : S) × (o ≡ next a s) × (f a s ≡ next b s')
  then_run-next (next a s) f b s' e = (a, s, refl, e)
  then_run-next (stop s) f b s' e = cc
  then_run-next (panic s) f b s' e = cc

-- The state that a handler leaves.
abbrev pub final : {S A : Type 0} → Outcome S A → S
final (next a s) = s
final (stop s) = s
final (panic s) = s

pub final-After :
    {S A : Type 0} (P : S → Type 0) (o : Outcome S A) → After P (λ a s. P s) o → P (final o)
final-After P (next a s) h = h
final-After P (stop s) h = h
final-After P (panic s) h = h

pub After-weaken :
    {S A : Type 0} (P P' : S → Type 0) (o : Outcome S A)
    → ((s : S) → P s → P' s)
    → After P (λ a. P) o
    → After P' (λ a. P') o
After-weaken P P' (next a s) h k = h s k
After-weaken P P' (stop s) h k = h s k
After-weaken P P' (panic s) h k = h s k

pub After-weaken_stop :
    {S A : Type 0} (P P' : S → Type 0) (Q : A → S → Type 0) (o : Outcome S A)
    → ((s : S) → P s → P' s)
    → After P Q o
    → After P' Q o
After-weaken_stop P P' Q (next a s) h k = k
After-weaken_stop P P' Q (stop s) h k = h s k
After-weaken_stop P P' Q (panic s) h k = h s k

-- A handler that has returned does not go on.
pub stop-ne-next : {S A : Type 0} (s t : S) (a : A) → stop s ≢ next a t
stop-ne-next s t a e = cc

pub After-final :
    {S A : Type 0} (P : S → Type 0) (o : Outcome S A) → P (final o) → After P (λ a s. P s) o
After-final P (next a s) h = h
After-final P (stop s) h = h
After-final P (panic s) h = h

-- ===== src/Handler.antt =====
-- A handler is a function of the state that goes on with a value, has returned, or has panicked.
pub mod After

pub data Outcome (S A : Type 0) : Type 0 where
  next : A → S → Outcome S A
  stop : S → Outcome S A
  panic : S → Outcome S A

abbrev pub M : Type 0 → Type 0 → Type 0
M S A = S → Outcome S A

abbrev pub then_run : {S A B : Type 0} → Outcome S A → (A → M S B) → Outcome S B
then_run (next a s) f = f a s
then_run (stop s) f = stop s
then_run (panic s) f = panic s

infixl 5 ◌>>=◌ ◌>>◌
abbrev pub ◌>>=◌ : {S A B : Type 0} → M S A → (A → M S B) → M S B
◌>>=◌ m f s = then_run (m s) f

abbrev pub ◌>>◌ : {S A B : Type 0} → M S A → M S B → M S B
m >> k = m >>= λ _. k

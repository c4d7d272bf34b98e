-- ===== src/Gaml/Fresh.antt =====
-- The code that /gaml-code asks for.
use obligator.Base.{
  ℕ, zero, suc, not, length, find, or_err, List, [], ◌∷◌, refl, ◌≡◌, ◌≢◌, String, ok, ◌==◌, text_ne,
  Bool-cases, Result-cases, inl, inr, ok-injective, ap,
}
use obligator.Platform.{Platform}
use obligator.Utils.Random.{gen_random_code, code_chars}
use obligator.Utils.Random.Shape.{Draws, HasShape, random_texts-Draws}
use obligator.Gaml.{new_code}

module _ (p : Platform) where
  open p use {Source}

  -- A code that is drawn differs from the one that already stood on the page, and is 4 digits.
  pub new_code-HasShape :
      (rounds : ℕ) (old code : String) (src src' : Source)
      → new_code p rounds old src ≡ ok (code, src')
      → (code ≢ old) × HasShape 4 code_chars code
  unfolding new_code
  new_code-HasShape zero old code src src' e = cc
  new_code-HasShape (suc rounds) old code src src' e = elim (Result-cases (gen_random_code p src)) [
    | inr (m, q) ↦ cc (rw (q, new_code) at e)
    | inl (drawn, q) ↦ elim (Bool-cases (drawn.0 == old)) [
      | inl b ↦ new_code-HasShape rounds old code drawn.1 src' (rw (q, new_code, b) at e)
      | inr b ↦
          let same : drawn.0 ≡ code =
            ap (λ x. x.0) (ok-injective drawn (code, src') (rw (q, new_code, b) at e)) in
          let shape : Draws p 4 code_chars (ok drawn) = rw q at (random_texts-Draws p src).1 in
          (rw (← same) (text_ne drawn.0 old b), rw (← same) shape)
    ]
  ]

  -- A series of draws from the random source, each with what it leaves of it.
  abbrev pub AreDrawn : Source → List (String × Source) → Type 0
  AreDrawn src [] = Unit
  AreDrawn src (drawn ∷ more) = (gen_random_code p src ≡ ok drawn) × AreDrawn drawn.1 more

  -- The loop that draws a new code ends: where its rounds can be drawn, it gives the first code of
  -- them that is not the old one, and the error exactly when all of them are the old one.
  pub new_code-AreDrawn :
      (old : String) (src : Source) (draws : List (String × Source))
      → AreDrawn src draws
      → new_code p (length draws) old src
        ≡ or_err (find (λ drawn. not (drawn.0 == old)) draws) "Failed to generate a new code"
  unfolding new_code
  new_code-AreDrawn old src [] h = refl
  new_code-AreDrawn old src (drawn ∷ more) (e, h) = elim (Bool-cases (drawn.0 == old)) [
    | inl b ↦ rw (new_code, e, b) (new_code-AreDrawn old drawn.1 more h)
    | inr b ↦ rw (new_code, e, b)
  ]

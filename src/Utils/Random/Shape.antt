-- ===== src/Utils/Random/Shape.antt =====
-- What the random texts look like.
use Prim.Native.Char.{Char}
use Prim.Native.String.{[], ◌∷◌, count}
use text.Mathlib.TextLemmas.{length-append, length-cons, length-nil, nil-append, cons-append}
use obligator.Base.{
  ℕ, zero, suc, ◌+◌, ◌<◌, ◌≡◌, refl, subst, String, ◌⧺◌, Result, ok, err, ◌⊎◌, inl, inr,
  Result-cases, arith,
}
use obligator.Platform.{Platform}
use obligator.Utils.Random.{
  gen_random, gen_random_key, gen_random_code, generate_pkce_code_verifier, char_text, key_chars,
  code_chars, verifier_chars,
}

abbrev pub OccursIn : Char → String → Type 0
OccursIn c [] = ⊥
OccursIn c (d ∷ s) = (c ≡ d) ⊎ OccursIn c s

-- Every character of the text is one of the given.
abbrev pub IsOver : String → String → Type 0
IsOver chars [] = Unit
IsOver chars (c ∷ s) = OccursIn c chars × IsOver chars s

IsOver-append : (chars s t : String) → IsOver chars s → IsOver chars t → IsOver chars (s ⧺ t)
IsOver-append chars [] t h k = rw nil-append k
IsOver-append chars (c ∷ s) t (o, h) k = rw cons-append (o, IsOver-append chars s t h k)

-- Below the length, `char_text` is one character, of the alphabet.
char_text-IsOver :
    (chars : String) (i : ℕ)
    → i < count chars
    → (c : Char) × (char_text chars i ≡ c ∷ []) × OccursIn c chars
unfolding char_text
char_text-IsOver [] i h = absurd (omega (arith, length-nil))
char_text-IsOver (c ∷ s) zero h = (c, refl, inl refl)
char_text-IsOver (c ∷ s) (suc i) h =
    let (d, e, o) = char_text-IsOver s i (omega (arith, length-cons c s)) in (d, e, inr o)

abbrev pub HasShape : ℕ → String → String → Type 0
HasShape n chars r = (count r ≡ n) × IsOver chars r

module _ (p : Platform) where
  open p use {Source, rand_int, rand_int_lt}

  gen_random_step :
      (n : ℕ) (chars : String) (i : ℕ) (id : String)
      → i < count chars
      → IsOver chars id
      → (count (id ⧺ char_text chars i) ≡ count id + 1) × IsOver chars (id ⧺ char_text chars i)
  gen_random_step n chars i id lt h =
      let (c, e, o) = char_text-IsOver chars i lt in
      rw e (
        omega (arith, length-append id (c ∷ []), length-cons c [], length-nil),
        IsOver-append chars id (c ∷ []) h (o, tt),
      )

  -- A text of n characters of the alphabet, or the error of a draw that failed.
  abbrev pub Draws : ℕ → String → Result (String × Source) → Type 0
  Draws n chars (ok (r, s)) = HasShape n chars r
  Draws n chars (err m) = (s : Source) × (rand_int s (count chars) ≡ err m)

  gen_random-Draws :
      (n : ℕ) (chars : String) (s : Source) (id : String)
      → IsOver chars id
      → Draws (count id + n) chars (gen_random p n chars s id)
  unfolding gen_random
  gen_random-Draws zero chars s id h = (omega arith, h)
  gen_random-Draws (suc n) chars s id h = elim (Result-cases (rand_int s (count chars))) [
    | inr (m, q) ↦ rw (q, gen_random) (s, q)
    | inl (d, q) ↦
        let (more, over) =
          gen_random_step n chars d.0 id (rand_int_lt s (count chars) d.0 d.1 q) h in
        let e : count (id ⧺ char_text chars d.0) + n ≡ count id + suc n = omega arith in
        rw (q, gen_random)
          (subst (λ k. Draws k chars (gen_random p n chars d.1 (id ⧺ char_text chars d.0))) e
            (gen_random-Draws n chars d.1 (id ⧺ char_text chars d.0) over))
  ]

  -- A random key is 32 letters and digits, a code 4 digits, and a PKCE verifier 64 unreserved
  -- characters, or the draw's error is returned.
  pub random_texts-Draws :
      (s : Source)
      → Draws 32 key_chars (gen_random_key p s)
        × Draws 4 code_chars (gen_random_code p s)
        × Draws 64 verifier_chars (generate_pkce_code_verifier p s)
  unfolding gen_random_key gen_random_code generate_pkce_code_verifier
  random_texts-Draws s = (
    gen_random-Draws 32 key_chars s "" tt,
    gen_random-Draws 4 code_chars s "" tt,
    gen_random-Draws 64 verifier_chars s "" tt,
  )

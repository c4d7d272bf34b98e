-- ===== src/Base/Text.antt =====
-- Go's `strings.Split` and `strings.Join`, for a separator of one character.
use Prim.Native.Nat.{ℕ}
use Prim.Native.Char.{Char, code}
use Prim.Native.String
use Prim.Native.String.{String, [], ◌∷◌}
use mathlib.Core.Path.{◌≡◌, refl, sym, ap, ◌∙◌, subst}
use mathlib.Core.Logic.{ite, if_pos, if_neg, ◌≢◌}
use mathlib.Core.List.{List, [], ◌∷◌}
use native.Mathlib.Decide.{ℕ_discrete}
use text.Mathlib.TextEquality.{Char-path}
use text.Mathlib.TextLemmas.{nil-append, cons-append}

infixr 66 ◌⧺◌
abbrev pub ◌⧺◌ : String → String → String
s ⧺ t = String.◌++◌ s t

-- Puts a character in front of the first part.
abbrev grow : Char → List String → List String
grow c [] = (c ∷ []) ∷ []
grow c (p ∷ ps) = (c ∷ p) ∷ ps

unfoldable pub split : ℕ → String → List String
unfolding ℕ_discrete
split sep [] = "" ∷ []
split sep (c ∷ s) = ite (ℕ_discrete (code c) sep) ("" ∷ split sep s) (grow c (split sep s))

unfoldable pub join : String → List String → String
join sep [] = ""
join sep (p ∷ []) = p
join sep (p ∷ q ∷ ps) = p ⧺ sep ⧺ join sep (q ∷ ps)

-- No character of the text is the separator.
abbrev pub Without : ℕ → String → Type 0
Without sep [] = Unit
Without sep (c ∷ s) = (code c ≢ sep) × Without sep s

grow-join : (sep : String) (c : Char) (ps : List String) → join sep (grow c ps) ≡ c ∷ join sep ps
unfolding join
grow-join sep c [] = refl
grow-join sep c (p ∷ []) = refl
grow-join sep c (p ∷ q ∷ ps) = cons-append c p (sep ⧺ join sep (q ∷ ps))

split_at : (sep : ℕ) (c : Char) (s : String) → code c ≡ sep → split sep (c ∷ s) ≡ "" ∷ split sep s
unfolding split
split_at sep c s h = if_pos (ℕ_discrete (code c) sep) h _ _

split_past :
    (sep : ℕ) (c : Char) (s : String) → code c ≢ sep → split sep (c ∷ s) ≡ grow c (split sep s)
unfolding split
split_past sep c s h = if_neg (ℕ_discrete (code c) sep) h _ _

pub split-ne-nil :
    (sep : ℕ) (s : String) → (p : String) × (ps : List String) × (split sep s ≡ p ∷ ps)
unfolding split
split-ne-nil sep [] = ("", [], refl)
split-ne-nil sep (c ∷ s) = elim (ℕ_discrete (code c) sep) [
  | yes h ↦ ("", split sep s, split_at sep c s h)
  | no h ↦ let (p, ps, e) = split-ne-nil sep s in (c ∷ p, ps, split_past sep c s h ∙ ap (grow c) e)
]

-- An empty first part puts the separator in front.
join-empty :
    (sep p : String) (ps qs : List String) → qs ≡ p ∷ ps → join sep ("" ∷ qs) ≡ sep ⧺ join sep qs
unfolding join
join-empty sep p ps qs e = rw e (nil-append _)

-- A text is put together again from its parts.
pub join-split : (c : Char) (sep : ℕ) (s : String) → code c ≡ sep → join (c ∷ []) (split sep s) ≡ s
unfolding split join
join-split c sep [] h = refl
join-split c sep (d ∷ s) h = elim (ℕ_discrete (code d) sep) [
  | yes e ↦
      let (p, ps, q) = split-ne-nil sep s in
      ap (join (c ∷ [])) (split_at sep d s e)
      ∙ join-empty (c ∷ []) p ps (split sep s) q
      ∙ cons-append c [] _
      ∙ ap (String.◌∷◌ c) (nil-append _ ∙ join-split c sep s h)
      ∙ ap (λ x. String.◌∷◌ x s) (Char-path c d (h ∙ sym e))
  | no e ↦
      ap (join (c ∷ [])) (split_past sep d s e)
      ∙ grow-join (c ∷ []) d (split sep s)
      ∙ ap (String.◌∷◌ d) (join-split c sep s h)
]

-- A text without the separator is its only part.
pub split_of_Without : (sep : ℕ) (s : String) → Without sep s → split sep s ≡ s ∷ []
unfolding split
split_of_Without sep [] h = refl
split_of_Without sep (c ∷ s) (n, h) = split_past sep c s n ∙ ap (grow c) (split_of_Without sep s h)

-- The first separator ends the first part.
pub split-append :
    (sep : ℕ) (s : String) (c : Char) (t : String)
    → Without sep s
    → code c ≡ sep
    → split sep (s ⧺ (c ∷ t)) ≡ s ∷ split sep t
split-append sep [] c t h e = ap (split sep) (nil-append _) ∙ split_at sep c t e
split-append sep (d ∷ s) c t (n, h) e =
    ap (split sep) (cons-append d s _)
    ∙ split_past sep d _ n
    ∙ ap (grow d) (split-append sep s c t h e)

abbrev pub EachWithout : ℕ → List String → Type 0
EachWithout sep [] = Unit
EachWithout sep (p ∷ ps) = Without sep p × EachWithout sep ps

grow-EachWithout :
    (sep : ℕ) (c : Char) (ps : List String)
    → code c ≢ sep
    → EachWithout sep ps
    → EachWithout sep (grow c ps)
grow-EachWithout sep c [] n h = ((n, tt), tt)
grow-EachWithout sep c (p ∷ ps) n (q, h) = ((n, q), h)

-- No part holds the separator.
pub split-EachWithout : (sep : ℕ) (s : String) → EachWithout sep (split sep s)
unfolding split
split-EachWithout sep [] = (tt, tt)
split-EachWithout sep (c ∷ s) = elim (ℕ_discrete (code c) sep) [
  | yes h ↦ subst (EachWithout sep) (sym (split_at sep c s h)) (tt, split-EachWithout sep s)
  | no h ↦
      subst (EachWithout sep) (sym (split_past sep c s h))
        (grow-EachWithout sep c _ h (split-EachWithout sep s))
]

-- ===== src/Qr/Selection.antt =====
-- What a share holds.
use obligator.Base.{
  ◌≡◌, refl, ap, String, Bool, ◌&&◌, none, some, List, [], ◌∷◌, ◌++◌, ◌==◌, eq_iff, if◌then◌else◌,
  keep, exists, arith, Bool-cases, inl, inr,
}
use obligator.Types.{Identity}
use obligator.Utils.LoginCookie.Merge.{by_id}
use obligator.Qr.{selected, checkbox, is_on}

-- A box of the form with the id is ticked.
abbrev pub is_ticked : String → List (String × List String) → Bool
is_ticked id = exists (λ (e : String × List String). e.0 == checkbox id && is_on e.1)

by_id-append :
    (k : String) (l m : List Identity)
    → by_id k (l ++ m) ≡ (elim (by_id k l) [ some i ↦ some i | none ↦ by_id k m ])
by_id-append k [] m = refl
by_id-append k (i ∷ l) m = ground (arith, by_id-append k l m)

by_id-ticked :
    (k key : String) (l : List Identity)
    → by_id k (keep (λ ident. key == checkbox ident.id) l)
      ≡ (if key == checkbox k then by_id k l else none)
by_id-ticked k key [] = ground arith
by_id-ticked k key (i ∷ l) = elim (Bool-cases (i.id == k)) [
  | inl b ↦
      let e : (key == checkbox i.id) ≡ (key == checkbox k) =
        ap (λ x. key == checkbox x) ((eq_iff i.id k).0 b) in
      ground (arith, e, by_id-ticked k key l)
  | inr b ↦ ground (arith, by_id-ticked k key l)
]

-- A share has, under an id, the session's identity with that id if its box was ticked, and else
-- none: nobody shares an identity that is not the session's own.
pub by_id-selected :
    (k : String) (form : List (String × List String)) (idents : List Identity)
    → by_id k (selected form idents) ≡ (if is_ticked k form then by_id k idents else none)
unfolding selected
by_id-selected k [] idents = refl
by_id-selected k ((key, values) ∷ form) idents = elim (Bool-cases (is_on values)) [
  | inr b ↦ ground (arith, b, by_id-selected k form idents)
  | inl b ↦ ground (
    arith,
    b,
    by_id-append k (keep (λ ident. key == checkbox ident.id) idents) (selected form idents),
    by_id-ticked k key idents,
    by_id-selected k form idents,
  )
]

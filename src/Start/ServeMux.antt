-- ===== src/Start/ServeMux.antt =====
-- net/http's ServeMux and StripPrefix as the program uses them, on paths that are clean: ServeMux
-- answers any other path by a redirect to the clean one.
use Prim.Native.Char.{code}
use Prim.Native.String.{[] as nil, ◌∷◌ as cons}
use obligator.Base.{
  ℕ, suc, String, Bool, true, false, ◌&&◌, Option, none, some, List, [], ◌∷◌, if◌then◌else◌, leb,
  ltb, lookup,
}

-- The text without the prefix, if it begins with it: http.StripPrefix.
unfoldable pub strip_prefix : String → String → Option String
strip_prefix nil s = some s
strip_prefix (cons c p) nil = none
strip_prefix (cons c p) (cons d s) =
    let rest = strip_prefix p s in
    if leb (code c) (code d) && leb (code d) (code c) then rest else none

unfoldable pub text_length : String → ℕ
text_length nil = 0
text_length (cons c s) = suc (text_length s)

-- Whether a text ends with a slash.
unfoldable pub ends_in_slash : String → Bool
ends_in_slash nil = false
ends_in_slash (cons c nil) = leb (code c) b'/' && leb b'/' (code c)
ends_in_slash (cons c (cons d s)) = ends_in_slash (cons d s)

abbrev covers : String → String → Bool
covers pattern path =
    ends_in_slash pattern && (elim (strip_prefix pattern path) [ some rest ↦ true | none ↦ false ])

module _ {A : Type 0} where
  abbrev longer : String × A → Option (String × A) → Option (String × A)
  longer entry none = some entry
  longer entry (some best) =
      if ltb (text_length best.0) (text_length entry.0) then some entry else some best

  -- The longest pattern with a slash at its end that the path begins with.
  unfoldable pub longest : String → List (String × A) → Option (String × A)
  longest path [] = none
  longest path (entry ∷ rest) =
      let best = longest path rest in if covers entry.0 path then longer entry best else best

  abbrev value_of : Option (String × A) → Option A
  value_of none = none
  value_of (some entry) = some entry.1

  -- http.ServeMux: the pattern that is the path, or else the longest that begins it.
  unfoldable pub serve_mux : List (String × A) → String → Option A
  serve_mux table path = elim (lookup path table) [
    | some a ↦ some a
    | none ↦ value_of (longest path table)
  ]

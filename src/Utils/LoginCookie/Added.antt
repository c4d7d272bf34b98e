-- ===== src/Utils/LoginCookie/Added.antt =====
-- Which identities a session has after a login.
use obligator.Base.{
  ℕ, ◌≤◌, ◌≡◌, ◌≢◌, refl, String, ◌==◌, eq_iff, arith, not, keep, Result, ok, err, Option, none,
  some, List, [], ◌∷◌, if◌then◌else◌, Bool-cases, Result-cases, inl, inr,
}
use obligator.Types.{Claim, identities, Identity, Cookie, Request}
use obligator.Platform.{Platform}
use obligator.JwtLaws.{JwtLaws, HasNoLimit}
use obligator.Http.{cookie_value}
use obligator.Jose.{get_public_jwks, parse_jwt}
use obligator.Utils.Cookies.{get_identities, cross_site_detector}
use obligator.Utils.LoginCookie.{
  merge_identities, claimed_identities, old_identities, current_token, token_or_new,
  add_ident_to_cookie,
}
use obligator.Utils.LoginCookie.Merge.{by_id, by_id-keep, by_id-keep_same}
use obligator.Utils.LoginCookie.Session.{get_identities-add_ident_to_cookie}

-- The new identity comes first. Behind it no other has its id, and every other id has the identity
-- that it had in `old`, or none.
abbrev pub IsAdded : Identity → List Identity → Result (List Identity) → Type 0
IsAdded new_ident old answer =
    (rest : List Identity) × (answer ≡ ok (new_ident ∷ rest))
    × ((k : String) → by_id k rest ≡ (if new_ident.id == k then none else by_id k old))

by_id-keep_cases :
    (k n : String) (old : List Identity)
    → by_id k (keep (λ ident. not (ident.id == n)) old) ≡ (if n == k then none else by_id k old)
by_id-keep_cases k n old = elim (Bool-cases (n == k)) [
  | inl b ↦ rw (b, ← (eq_iff n k).0 b) (by_id-keep_same n old)
  | inr b ↦ rw b (by_id-keep k n old (λ e. ground (arith, eq_iff n k, e, b)))
]

merge_identities-IsAdded :
    (new_ident : Identity) (old : List Identity)
    → IsAdded new_ident old (ok (merge_identities new_ident old))
unfolding merge_identities
merge_identities-IsAdded new_ident old = (
  keep (λ ident. not (ident.id == new_ident.id)) old,
  refl,
  λ k. by_id-keep_cases k new_ident.id old,
)

-- The identities that a claim lists.
abbrev pub listed : Option Claim → List Identity
listed (some (identities l)) = l
listed _ = []

claimed_identities-eq-listed : (c : Option Claim) → claimed_identities c ≡ listed c
claimed_identities-eq-listed none = refl
claimed_identities-eq-listed (some (identities l)) = refl
claimed_identities-eq-listed (some _) = refl

module _ (p : Platform) where
  open p use {Db, Token, Source, Keyset, get_claim}

  abbrev held_by : Result Token → List Identity
  held_by (ok t) = listed (get_claim "identities" t)
  held_by (err m) = []

  -- The identities of a valid cookie text; none of "" or of one that is not valid.
  abbrev pub held : ℕ → Db → String → List Identity
  held now d value = if value == "" then [] else held_by (parse_jwt p now d value)

  old_identities-eq-held :
      (now : ℕ) (d : Db) (old : String)
      → old_identities p (current_token p now d old) ≡ held now d old
  unfolding current_token
  old_identities-eq-held now d old = elim (Bool-cases (old == "")) [
    | inl b ↦ rw b
    | inr b ↦ elim (Result-cases (parse_jwt p now d old)) [
      | inr (m, e) ↦ rw (b, e)
      | inl (t, e) ↦ rw (b, e) (claimed_identities-eq-listed (get_claim "identities" t))
    ]
  ]

  -- When a login has made a login cookie that is not blank, a later request that brings it and the
  -- same-site cookie is one of a list of identities that begins with the new one. The rest of the
  -- list has no identity of the new id, and for every other id its first identity is the first one
  -- of the old cookie, or there is none in either. The token of the old cookie has no time limit.
  pub held-add_ident_to_cookie :
      (laws : JwtLaws p) (now later : ℕ) (host : String) (d : Db) (old : String)
      (new_ident : Identity) (src : Source) (c : Cookie) (src' : Source) (public : Keyset)
      (r : Request) (x : String)
      → add_ident_to_cookie p now host d old new_ident src ≡ ok (c, src')
      → c.value ≢ ""
      → get_public_jwks p d ≡ ok public
      → HasNoLimit p (token_or_new p (current_token p now d old))
      → cookie_value c.name r ≡ ok c.value
      → cookie_value cross_site_detector r ≡ ok x
      → now ≤ later
      → IsAdded new_ident (held now d old) (get_identities p later d r)
  held-add_ident_to_cookie laws now later host d old new_ident src c src' public r x e n k h b1 b2
        le =
      rw
        (
          get_identities-add_ident_to_cookie p laws now later host d old new_ident src c src' public
              r x e n k h b1 b2 le,
          old_identities-eq-held now d old,
        )
        (merge_identities-IsAdded new_ident (held now d old))

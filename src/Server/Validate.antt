-- ===== src/Server/Validate.antt =====
-- obligator.go, validate and checkErrPassthrough.
use obligator.Base.{
  ℕ, ◌≡◌, refl, String, Bool, true, false, Result, ok, err, Option, none, some, List, [], ◌∷◌,
  if◌then◌else◌, ◌⊎◌, inl, inr, Result-cases,
}
use obligator.Types.{Claim, identities, Identity, Request}
use obligator.Platform.{Platform}
use obligator.Jose.{parse_jwt}
use obligator.Utils.Cookies.{get_login_cookie}

pub record Validation : Type 0 where
  pub id : String
  pub id_type : String

-- The function returns, or panics on `tokIdents[0]`.
pub data Checked : Type 0 where
  verdict : Result (Option Validation) → Checked
  panicked : Checked

abbrev pub check_err_passthrough : String → Bool → Result (Option Validation)
check_err_passthrough m passthrough = if passthrough then ok none else err m

abbrev pub first_identity : Bool → Option Claim → Checked
first_identity passthrough (some (identities (ident ∷ l))) =
    verdict (ok (some (record { id = ident.id; id_type = ident.id_type })))
first_identity passthrough (some (identities [])) = panicked
first_identity passthrough _ = verdict (check_err_passthrough "No identities" passthrough)

module _ (p : Platform) where
  open p use {Db, db, Token, get_claim}

  unfoldable pub validate : ℕ → Db → Request → Checked
  validate now d r = elim (db.get_forward_auth_passthrough d) [
    | err m ↦ verdict (err m)
    | ok passthrough ↦ elim (get_login_cookie p d r) [
      | err m ↦ verdict (check_err_passthrough m passthrough)
      | ok login_key ↦ elim (parse_jwt p now d login_key) [
        | err m ↦ verdict (check_err_passthrough m passthrough)
        | ok parsed ↦ first_identity passthrough (get_claim "identities" parsed)
      ]
    ]
  ]

  -- The identities in the login cookie of a request.
  abbrev pub Carries : ℕ → Db → Request → List Identity → Type 0
  Carries now d r l =
      (v : String) × (t : Token) × (get_login_cookie p d r ≡ ok v)
      × (parse_jwt p now d v ≡ ok t)
      × (get_claim "identities" t ≡ some (identities l))

  -- What each result of a validation means.
  abbrev pub Means : ℕ → Db → Request → Checked → Type 0
  Means now d r (verdict (ok (some v))) =
      (i : Identity) × (l : List Identity) × Carries now d r (i ∷ l)
      × (v.id ≡ i.id)
      × (v.id_type ≡ i.id_type)
  Means now d r (verdict (ok none)) = db.get_forward_auth_passthrough d ≡ ok true
  Means now d r (verdict (err m)) =
      (db.get_forward_auth_passthrough d ≡ err m) ⊎ (db.get_forward_auth_passthrough d ≡ ok false)
  Means now d r panicked = Carries now d r []

  first_identity-Means :
      (now : ℕ) (d : Db) (r : Request) (passthrough : Bool) (v : String) (t : Token)
      (o : Option Claim)
      → db.get_forward_auth_passthrough d ≡ ok passthrough
      → get_login_cookie p d r ≡ ok v
      → parse_jwt p now d v ≡ ok t
      → get_claim "identities" t ≡ o
      → Means now d r (first_identity passthrough o)
  first_identity-Means now d r passthrough v t (some (identities (i ∷ l))) e1 e2 e3 e4 =
      (i, l, (v, t, e2, e3, e4), refl, refl)
  first_identity-Means now d r passthrough v t (some (identities [])) e1 e2 e3 e4 =
      (v, t, e2, e3, e4)
  first_identity-Means now d r true v t _ e1 e2 e3 e4 = e1
  first_identity-Means now d r false v t _ e1 e2 e3 e4 = inr e1

  refused-Means :
      (now : ℕ) (d : Db) (r : Request) (m : String) (passthrough : Bool)
      → db.get_forward_auth_passthrough d ≡ ok passthrough
      → Means now d r (verdict (check_err_passthrough m passthrough))
  refused-Means now d r m true e = e
  refused-Means now d r m false e = inr e

  -- A validation names the first identity of the token in the request's login cookie; it is empty
  -- only under passthrough; it is an error only without it, or when the setting cannot be read; and
  -- it panics only on a token with an empty list of identities.
  pub validate-Means : (now : ℕ) (d : Db) (r : Request) → Means now d r (validate now d r)
  unfolding validate
  validate-Means now d r = elim (Result-cases (db.get_forward_auth_passthrough d)) [
    | inr (m, e) ↦ rw (e, validate) (inl e)
    | inl (passthrough, e) ↦ elim (Result-cases (get_login_cookie p d r)) [
      | inr (m, e1) ↦ rw (e, e1, validate) (refused-Means now d r m passthrough e)
      | inl (v, e1) ↦ elim (Result-cases (parse_jwt p now d v)) [
        | inr (m, e2) ↦ rw (e, e1, e2, validate) (refused-Means now d r m passthrough e)
        | inl (t, e2) ↦
            rw (e, e1, e2, validate)
              (first_identity-Means now d r passthrough v t (get_claim "identities" t) e e1 e2 refl)
      ]
    ]
  ]

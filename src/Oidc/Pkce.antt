-- ===== src/Oidc/Pkce.antt =====
-- add_identity_oauth2.go, GeneratePKCECodeChallenge and GeneratePKCEData, and the check of a code
-- verifier that oidc.go's /token and indieauth.go's handleToken share.
use obligator.Base.{
  ◌≡◌, ◌≢◌, String, Bool, false, Result, ok, err, ◌>>=◌, Option, none, some, ◌==◌, eq_iff, ◌↔◌, ◌⊎◌,
  inl, inr, if◌then◌else◌, arith,
}
use obligator.Types.{Claim, str}
use obligator.Platform.{Platform}
use obligator.Utils.Random.{generate_pkce_code_verifier}

-- A claim compared with a string: values of other types differ from every string.
abbrev pub claim_is : Claim → String → Bool
claim_is (str t) s = t == s
claim_is _ s = false

module _ (p : Platform) where
  open p use {Source, sha256, base64_raw_url}

  unfoldable pub generate_pkce_code_challenge : String → String
  generate_pkce_code_challenge verifier = base64_raw_url (sha256 verifier)

  -- The challenge, the verifier and the source that is left.
  unfoldable pub generate_pkce_data : Source → Result (String × String × Source)
  generate_pkce_data src = do
    drawn ← generate_pkce_code_verifier p src
    ok (generate_pkce_code_challenge drawn.0, drawn.0, drawn.1)

  unfoldable pub check_verifier : Option Claim → String → Result (Unit {0})
  check_verifier none verifier = err "Invalid pkce_code_challenge in code"
  check_verifier (some challenge) verifier =
      if claim_is challenge ""
      then (if verifier == ""
          then ok tt
          else err "code_verifier provided for request that did not include code_challenge")
      else (if claim_is challenge (generate_pkce_code_challenge verifier)
          then ok tt
          else err "Invalid code_verifier")

  -- The verifier fits what the code was issued for.
  abbrev pub Fits : Option Claim → String → Type 0
  Fits challenge verifier =
      ((challenge ≡ some (str "")) × (verifier ≡ ""))
      ⊎ ((challenge ≡ some (str (generate_pkce_code_challenge verifier)))
          × (generate_pkce_code_challenge verifier ≢ ""))

  check_verifier_sound :
      (challenge : Option Claim) (verifier : String)
      → check_verifier challenge verifier ≡ ok tt
      → Fits challenge verifier
  unfolding check_verifier
  check_verifier_sound none verifier h = cc
  check_verifier_sound (some (str c)) verifier h =
      ground
        (arith, eq_iff c "", eq_iff verifier "", eq_iff c (generate_pkce_code_challenge verifier))
  check_verifier_sound (some _) verifier h = cc

  check_verifier_complete :
      (challenge : Option Claim) (verifier : String)
      → Fits challenge verifier
      → check_verifier challenge verifier ≡ ok tt
  unfolding check_verifier
  check_verifier_complete challenge verifier (inl (e, q)) = rw (e, q)
  check_verifier_complete challenge verifier (inr (e, n)) = ground (
    arith,
    e,
    n,
    eq_iff (generate_pkce_code_challenge verifier) "",
    eq_iff (generate_pkce_code_challenge verifier) (generate_pkce_code_challenge verifier),
  )

  -- A verifier is accepted exactly when the code has no challenge and there is none, or when the
  -- code's challenge is the verifier's.
  pub check_verifier_iff :
      (challenge : Option Claim) (verifier : String)
      → (check_verifier challenge verifier ≡ ok tt) ↔ Fits challenge verifier
  check_verifier_iff challenge verifier =
      (check_verifier_sound challenge verifier, check_verifier_complete challenge verifier)

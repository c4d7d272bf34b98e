-- ===== src/IndieAuth/Redeem.antt =====
-- A code that /confirm made is exchanged at /token for the profile of the confirmed identity.
use mathlib.Core.Bool.{false≢true}
use native.Mathlib.Decide.{dec_lt}
use obligator.Base.{
  ℕ, ◌+◌, ◌<◌, ◌≤◌, ◌≡◌, ◌≢◌, refl, sym, String, ◌==◌, ◌∙◌, ◌⊎◌, text_ne, err-ne-ok, ok, some, inl,
  inr, arith, lookup, Bool-cases, eq_iff, Result-cases,
}
use obligator.Types.{str, Request}
use obligator.Platform.{Platform}
use obligator.JwtLaws.{JwtLaws, IsTimely}
use obligator.Http.{World, form_get, Refuses}
use obligator.Jose.{get_public_jwks, parse_jwt}
use obligator.Utils.Cookies.{claim_from_token}
use obligator.Jose.Signed.{parse_jwt-sign_jwt, parse_jwt-sign_jwt_expired}
use obligator.Oidc.Pkce.{Fits, check_verifier, check_verifier_iff}
use obligator.IndieAuth.{handle_token, profile_reply}
use obligator.IndieAuth.Granted.{IsCoded, timed_claims}

module _ (p : Platform) (laws : JwtLaws p) where
  open p use {Token, Keyset, build, get_claim}

  module _ (life now : ℕ) (host id challenge code : String) (s : World p)
      (m : IsCoded p life now host id challenge s.db code) where
    coded_claim :
        (k : String) → get_claim k m.code_token ≡ lookup k (timed_claims life host id challenge now)
    coded_claim k = laws.get-build k _ m.code_token refl m.built

    coded-IsTimely : (later : ℕ) → now ≤ later → later < now + life → IsTimely p later m.code_token
    coded-IsTimely later le lt =
        (inr (now + life, coded_claim "exp", lt), coded_claim "nbf", (now, coded_claim "iat", le))

    parsed_code :
        (later : ℕ) (r : Request) (s' : World p) (public : Keyset)
        → code ≢ ""
        → get_public_jwks p s.db ≡ ok public
        → s'.db ≡ s.db
        → form_get "code" r ≡ code
        → IsTimely p later m.code_token
        → parse_jwt p later s'.db (form_get "code" r) ≡ ok m.code_token
    parsed_code later r s' public n k same c timely =
        rw (same, c)
          (parse_jwt-sign_jwt p laws later s.db m.code_token code public n m.signed k timely)

    -- The verifier decides on a code of this host.
    placed :
        (later : ℕ) (r : Request) (s' : World p)
        → parse_jwt p later s'.db (form_get "code" r) ≡ ok m.code_token
        → host ≡ r.host
        → (Fits p (some (str challenge)) (form_get "code_verifier" r)
            × (handle_token p later r s' ≡ profile_reply p r.host id s'))
          ⊎ ((¬ (Fits p (some (str challenge)) (form_get "code_verifier" r)))
              × Refuses s' (handle_token p later r s'))
    unfolding handle_token claim_from_token
    placed later r s' e1 e2 =
        let fitting = check_verifier_iff p (some (str challenge)) (form_get "code_verifier" r) in
        let at = coded_claim "domain" in
        let challenged = coded_claim "pkce_code_challenge" in
        let same = (eq_iff host r.host).1 e2 in
        elim (Result-cases (check_verifier p (some (str challenge)) (form_get "code_verifier" r))) [
          | inl (u, e3) ↦
              inl (fitting.0 e3, rw (handle_token, e1, at, coded_claim "id", challenged, same, e3))
          | inr (x, e3) ↦ inr (
            (λ fits. err-ne-ok x (sym e3 ∙ fitting.1 fits)),
            (401, x, omega arith, rw (handle_token, e1, at, challenged, same, e3)),
          )
        ]

    -- What becomes of a code at a request to /token.
    abbrev pub IsExchanged : ℕ → Request → World p → Type 0
    IsExchanged later r s' =
        ((later < now + life)
          × (host ≡ r.host)
          × Fits p (some (str challenge)) (form_get "code_verifier" r)
          × (handle_token p later r s' ≡ profile_reply p r.host id s'))
        ⊎ (((now + life ≤ later)
              ⊎ (host ≢ r.host)
              ⊎ (¬ (Fits p (some (str challenge)) (form_get "code_verifier" r))))
            × Refuses s' (handle_token p later r s'))

    in_time :
        (later : ℕ) (r : Request) (s' : World p)
        → later < now + life
        → parse_jwt p later s'.db (form_get "code" r) ≡ ok m.code_token
        → IsExchanged later r s'
    unfolding handle_token claim_from_token
    in_time later r s' lt e1 = elim (Bool-cases (host == r.host)) [
      | inl b ↦ elim (placed later r s' e1 ((eq_iff host r.host).0 b)) [
        | inl (fits, e) ↦ inl (lt, (eq_iff host r.host).0 b, fits, e)
        | inr (unfit, e) ↦ inr (inr (inr unfit), e)
      ]
      | inr b ↦ inr (
        inr (inl (text_ne host r.host b)),
        (400, "Invalid domain", omega arith, rw (handle_token, e1, coded_claim "domain", b)),
      )
    ]

    expired :
        (later : ℕ) (r : Request) (s' : World p)
        → code ≢ ""
        → s'.db ≡ s.db
        → form_get "code" r ≡ code
        → now + life ≤ later
        → Refuses s' (handle_token p later r s')
    unfolding handle_token
    expired later r s' n same c le =
        let refused =
          parse_jwt-sign_jwt_expired p laws later (now + life) s.db m.code_token code n m.signed
            (coded_claim "exp") le in
        elim (Result-cases (parse_jwt p later s'.db (form_get "code" r))) [
          | inr (x, q) ↦ (401, x, omega arith, rw (handle_token, q))
          | inl (x, q) ↦ let h = rw (rw (same, c) at q) at refused in absurd (false≢true (sym h))
        ]

    -- A code for an identity, as /confirm makes it with a lifetime of 16 seconds and /id-assertion
    -- with one of 300, is answered by /token of the same host within that time, with the profile of
    -- the identity, when the verifier is that of the code's challenge (or none, where it has none).
    -- In every other case it is refused, and nothing else changes.
    pub handle_token-IsExchanged :
        (later : ℕ) (r : Request) (s' : World p) (public : Keyset)
        → code ≢ ""
        → get_public_jwks p s.db ≡ ok public
        → s'.db ≡ s.db
        → form_get "code" r ≡ code
        → now ≤ later
        → IsExchanged later r s'
    handle_token-IsExchanged later r s' public n k same c le = elim (dec_lt later (now + life)) [
      | yes lt ↦
          in_time later r s' lt
            (parsed_code later r s' public n k same c (coded-IsTimely later le lt))
      | no late ↦ inr (inl (omega arith), expired later r s' n same c (omega arith))
    ]

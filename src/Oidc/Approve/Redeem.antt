-- ===== src/Oidc/Approve/Redeem.antt =====
-- A code that /approve made is exchanged at /token for the ID token that was built for it.
use mathlib.Core.Bool.{false≢true}
use obligator.Base.{
  ℕ, ◌+◌, ◌<◌, ◌≤◌, ◌≡◌, ◌≢◌, sym, ap, ◌∙◌, String, ok, some, inl, inr, arith, Result-cases,
}
use obligator.Types.{str, Identity, Request}
use obligator.Platform.{Platform}
use obligator.JwtLaws.{JwtLaws}
use obligator.Handler.{next}
use obligator.Http.{World, form_get, Refuses}
use obligator.Jose.{get_public_jwks, parse_jwt, sign_jwt, decrypt_jwt}
use obligator.Utils.Cookies.{claim_from_token, text_of}
use obligator.Jose.Signed.{parse_jwt-sign_jwt, parse_jwt-sign_jwt_expired}
use obligator.Oidc.Pkce.{Fits, check_verifier, check_verifier_iff}
use obligator.Oidc.Token.{token, token_reply, id_token_text, access_claims}
use obligator.Oidc.Approve.{make_code}
use obligator.Oidc.Approve.Made.{
  issued_claims, make_code-IsMade, granted_subject, made_code, made_sealed, made_code-IsTimely,
}

module _ (p : Platform) where
  open p use {Token, Keyset, Db, build, subject, get_claim}

  module _ (laws : JwtLaws p) where
    token_answers :
        (later : ℕ) (r : Request) (s : World p) (code access : Token)
        (sealed signed signed_access sub : String)
        → parse_jwt p later s.db (form_get "code" r) ≡ ok code
        → get_claim "id_token" code ≡ some (str sealed)
        → decrypt_jwt p s.db sealed ≡ ok signed
        → check_verifier p (get_claim "pkce_code_challenge" code) (form_get "code_verifier" r)
          ≡ ok tt
        → subject code ≡ sub
        → build (access_claims sub later) ≡ ok access
        → sign_jwt p s.db access ≡ ok signed_access
        → token p later r s ≡ next tt (record s { w = token_reply signed_access signed s.w })
    unfolding token id_token_text
    token_answers later r s code access sealed signed signed_access sub e1 e2 e3 e4 e5 e6 e7 =
        rw (e1, e2, e3, e4, e5, e6, e7)

    -- A code that /approve made, brought to /token within 16 seconds with the verifier of the
    -- request's challenge (or with none, where it had none), is answered with the ID token that was
    -- built for the approved identity and with an access token for the approved address, or for ""
    -- where the scope did not ask for the e-mail address. The database is the one of the approval,
    -- and the access token is built and signed without an error.
    pub token-make_code :
        (now later : ℕ) (r r' : Request) (t : Token) (i : Identity) (id code : String)
        (s s1 s' : World p) (public : Keyset) (access : Token) (signed_access : String)
        → make_code p now r t i id s ≡ next code s1
        → code ≢ ""
        → get_public_jwks p s.db ≡ ok public
        → s'.db ≡ s.db
        → form_get "code" r' ≡ code
        → Fits p
            (some (str (claim_from_token p "pkce_code_challenge" t)))
            (form_get "code_verifier" r')
        → now ≤ later
        → later < now + 16
        → build (access_claims (granted_subject p t id) later) ≡ ok access
        → sign_jwt p s.db access ≡ ok signed_access
        → (id_token : Token) × (signed : String) × (build (issued_claims p now r t i id)
            ≡ ok id_token)
          × (sign_jwt p s.db id_token ≡ ok signed)
          × (token p later r' s'
              ≡ next tt (record s' { w = token_reply signed_access signed s'.w }))
    token-make_code now later r r' t i id code s s1 s' public access signed_access e n k same c fits
          le lt b1 b2 =
        let m = make_code-IsMade p now r t i id s s1 code e in
        let (signed, g1, g2) = made_sealed p laws s.db m.id_token m.sealed m.encrypted in
        let at = made_code p laws now r t i id s.db code m in
        let parsed =
          parse_jwt-sign_jwt p laws later s.db m.code_token code public n m.signed k
            (made_code-IsTimely p laws now later r t i id s.db code m le lt) in
        (
          m.id_token,
          signed,
          m.built,
          g1,
          token_answers later r' s' m.code_token access m.sealed signed signed_access
              (granted_subject p t id) (rw (same, c) parsed) (at "id_token") (rw same g2)
              (rw (at "pkce_code_challenge")
                ((check_verifier_iff p _ (form_get "code_verifier" r')).1 fits))
              (laws.subject-sub m.code_token ∙ ap text_of (at "sub")) b1 (rw same b2),
        )

    -- From the sixteenth second on /token refuses the code.
    pub token-make_code_expired :
        (now later : ℕ) (r r' : Request) (t : Token) (i : Identity) (id code : String)
        (s s1 s' : World p)
        → make_code p now r t i id s ≡ next code s1
        → code ≢ ""
        → s'.db ≡ s.db
        → form_get "code" r' ≡ code
        → now + 16 ≤ later
        → Refuses s' (token p later r' s')
    unfolding token
    token-make_code_expired now later r r' t i id code s s1 s' e n same c le =
        let m = make_code-IsMade p now r t i id s s1 code e in
        let refused =
          parse_jwt-sign_jwt_expired p laws later (now + 16) s.db m.code_token code n m.signed
            (made_code p laws now r t i id s.db code m "exp") le in
        elim (Result-cases (parse_jwt p later s'.db (form_get "code" r'))) [
          | inr (x, q) ↦ (401, x, omega arith, rw q)
          | inl (x, q) ↦ let h = rw (rw (same, c) at q) at refused in absurd (false≢true (sym h))
        ]

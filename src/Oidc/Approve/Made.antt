-- ===== src/Oidc/Approve/Made.antt =====
-- What the code that /approve makes consists of.
use obligator.Base.{
  ℕ, ◌+◌, ◌<◌, ◌≤◌, ◌≡◌, refl, not, ◌&&◌, ◌==◌, String, true, ok, or_err, some, List, if◌then◌else◌,
  lookup, inl, inr, arith, >>=-eq-ok, or_err-eq-ok, Bool-cases,
}
use obligator.Types.{Claim, Identity, Request}
use obligator.Platform.{Platform}
use obligator.JwtLaws.{JwtLaws, IsTimely, distinct_keys}
use obligator.Handler.{next}
use obligator.Handler.After.{then_run-next}
use obligator.Http.{World, or_fail, or_fail_silent, or_fail-next, or_fail_silent-next}
use obligator.Jose.{get_jwks, sign_jwt, sign_and_encrypt_jwt, decrypt_jwt}
use obligator.Utils.CookieDomain.{domain_to_uri}
use obligator.Utils.Cookies.{claim_from_token, text_of}
use obligator.Oidc.Approve.{make_code, code_claims, id_token_claims, has_scope}

module _ (p : Platform) where
  open p use {Token, Keyset, Key, Db, build, subject, get_claim, first_key, jwt_sign, public_set_of}

  -- The claims of the ID token for an approved request.
  abbrev pub issued_claims : ℕ → Request → Token → Identity → String → List (String × Claim)
  issued_claims now r t i id =
      id_token_claims i id (claim_from_token p "client_id" t) (domain_to_uri r.host) now
        (claim_from_token p "nonce" t) (claim_from_token p "scope" t)
        (claim_from_token p "flow_type" t)

  -- What make_code put together.
  pub record IsMade (now : ℕ) (r : Request) (t : Token) (i : Identity) (id : String) (d : Db)
      (code : String) : Type 0 where
    pub id_token : Token
    pub sealed : String
    pub code_token : Token
    pub built : build (issued_claims now r t i id) ≡ ok id_token
    pub encrypted : sign_and_encrypt_jwt p d id_token ≡ ok sealed
    pub coded :
        build (
          code_claims
            (text_of (get_claim "email" id_token))
            sealed
            (claim_from_token p "pkce_code_challenge" t)
            now)
        ≡ ok code_token
    pub signed : sign_jwt p d code_token ≡ ok code

  pub make_code-IsMade :
      (now : ℕ) (r : Request) (t : Token) (i : Identity) (id : String) (s s' : World p)
      (code : String)
      → make_code p now r t i id s ≡ next code s'
      → IsMade now r t i id s.db code
  unfolding make_code
  make_code-IsMade now r t i id s s' code e =
      let claims = issued_claims now r t i id in
      let (id_token, s1, q1, r1) =
        then_run-next (or_fail_silent 500 (build claims) s) _ code s' e in
      let (e1, u1) = or_fail_silent-next 500 (build claims) s s1 id_token q1 in
      let (sealed, s2, q2, r2) =
        then_run-next (or_fail_silent 500 (sign_and_encrypt_jwt p s.db id_token) s1) _ code s' r1 in
      let (e2, u2) =
        or_fail_silent-next 500 (sign_and_encrypt_jwt p s.db id_token) s1 s2 sealed q2 in
      let cs =
        code_claims (text_of (get_claim "email" id_token)) sealed
          (claim_from_token p "pkce_code_challenge" t) now in
      let (code_token, s3, q3, r3) = then_run-next (or_fail 500 (build cs) s2) _ code s' r2 in
      let (e3, u3) = or_fail-next 500 (build cs) s2 s3 code_token q3 in
      let (e4, u4) = or_fail-next 400 (sign_jwt p s.db code_token) s3 s' code r3 in
      record {
        id_token = id_token;
        sealed = sealed;
        code_token = code_token;
        built = e1;
        encrypted = e2;
        coded = e3;
        signed = e4;
      }

  pub distinct_id_token :
      (i : Identity) (id client uri : String) (now : ℕ) (nonce scope flow : String)
      → distinct_keys (id_token_claims i id client uri now nonce scope flow) ≡ true
  unfolding id_token_claims
  distinct_id_token i id client uri now nonce scope flow = ground arith

  pub sign_and_open :
      (d : Db) (t : Token) (ks : Keyset) (k : Key) (signed v : String)
      → get_jwks p d ≡ ok ks
      → first_key ks ≡ some k
      → jwt_sign k t ≡ ok signed
      → p.jwe_decrypt k v ≡ ok signed
      → (sign_jwt p d t ≡ ok signed) × (decrypt_jwt p d v ≡ ok signed)
  unfolding sign_jwt decrypt_jwt
  sign_and_open d t ks k signed v e1 e2 e3 e4 = (rw (e1, e2, e3), rw (e1, e2, e4))

  -- The address in the access token: blank when the scope did not ask for the e-mail address.
  abbrev pub granted_subject : Token → String → String
  granted_subject t id = if has_scope "email" (claim_from_token p "scope" t) then id else ""

  module _ (laws : JwtLaws p) where
    pub made_subject :
        (now : ℕ) (r : Request) (t : Token) (i : Identity) (id : String) (d : Db) (code : String)
        (m : IsMade now r t i id d code)
        → text_of (get_claim "email" m.id_token) ≡ granted_subject t id
    unfolding id_token_claims
    made_subject now r t i id d code m =
        let e =
          laws.get-build "email" (issued_claims now r t i id) m.id_token
            (distinct_id_token i id (claim_from_token p "client_id" t) (domain_to_uri r.host) now
              (claim_from_token p "nonce" t) (claim_from_token p "scope" t)
              (claim_from_token p "flow_type" t))
            m.built in
        elim (Bool-cases (has_scope "email" (claim_from_token p "scope" t))) [
          | inl b ↦ rw (e, b)
          | inr b ↦
              elim (Bool-cases (
                has_scope "profile" (claim_from_token p "scope" t)
                && not (claim_from_token p "flow_type" t == "shortcut")
                && not (i.name == ""))) [ inl n ↦ rw (e, b, n) | inr n ↦ rw (e, b, n) ]
        ]

    pub made_code :
        (now : ℕ) (r : Request) (t : Token) (i : Identity) (id : String) (d : Db) (code : String)
        (m : IsMade now r t i id d code) (k : String)
        → get_claim k m.code_token
          ≡ lookup k (
              code_claims
                (granted_subject t id)
                m.sealed
                (claim_from_token p "pkce_code_challenge" t)
                now)
    made_code now r t i id d code m k = rw (← made_subject now r t i id d code m) (
        laws.get-build k
          (code_claims (text_of (get_claim "email" m.id_token)) m.sealed
            (claim_from_token p "pkce_code_challenge" t) now)
          m.code_token refl m.coded)

    pub made_sealed :
        (d : Db) (t : Token) (v : String)
        → sign_and_encrypt_jwt p d t ≡ ok v
        → (signed : String) × (sign_jwt p d t ≡ ok signed) × (decrypt_jwt p d v ≡ ok signed)
    unfolding sign_and_encrypt_jwt
    made_sealed d t v e =
        let (ks, e1, r1) = >>=-eq-ok (get_jwks p d) _ v e in
        let (k, e2, r2) = >>=-eq-ok (or_err (first_key ks) _) _ v r1 in
        let (public, e3, r3) = >>=-eq-ok (public_set_of ks) _ v r2 in
        let (pk, e4, r4) = >>=-eq-ok (or_err (first_key public) _) _ v r3 in
        let (signed, g1, g2) =
          laws.decrypt-serialize ks public k pk t v (or_err-eq-ok _ _ _ e2) e3
            (or_err-eq-ok _ _ _ e4) r4 in
        let (h1, h2) = sign_and_open d t ks k signed v e1 (or_err-eq-ok _ _ _ e2) g1 g2 in
        (signed, h1, h2)

    -- The parts of a code are in time for 16 seconds.
    pub made_code-IsTimely :
        (now later : ℕ) (r : Request) (t : Token) (i : Identity) (id : String) (d : Db)
        (code : String) (m : IsMade now r t i id d code)
        → now ≤ later
        → later < now + 16
        → IsTimely p later m.code_token
    made_code-IsTimely now later r t i id d code m le lt = (
      inr (now + 16, made_code now r t i id d code m "exp", lt),
      made_code now r t i id d code m "nbf",
      (now, made_code now r t i id d code m "iat", le),
    )

-- ===== src/IndieAuth/Granted.antt =====
-- For whom /confirm makes a code.
use obligator.Base.{
  ℕ, ◌<◌, ◌≡◌, refl, String, ◌⧺◌, ◌==◌, eq_iff, ok, some, List, [], ◌∷◌, ◌+◌, find, arith, inl, inr,
  find-passes, ◌∙◌, ◌⊎◌, Bool-cases, Result-cases, Option-cases,
}
use obligator.Types.{Claim, str, time, Identity, Request}
use obligator.Platform.{Platform}
use obligator.Handler.{Outcome, next}
use obligator.Http.{World, add_cookie, form_get, fail, redirect}
use obligator.Jose.{sign_jwt}
use obligator.Utils.CookieDomain.{build_cookie_domain}
use obligator.Utils.CookieDomain.Covers.{build_cookie_domain-Covers}
use obligator.Utils.Cookies.{
  claim_from_token, get_identities, get_jwt_from_cookie, clear_cookie, deleted_cookie,
}
use obligator.IndieAuth.{confirm, confirm_identity, confirm_uri, denied, indie_code_claims}

-- The claims of a code with a lifetime: those of /confirm, and those of FedCM's /id-assertion.
abbrev pub timed_claims : ℕ → String → String → String → ℕ → List (String × Claim)
timed_claims life host id challenge now =
    ("iat", time now)
    ∷ ("exp", time (now + life))
    ∷ ("domain", str host)
    ∷ ("id", str id)
    ∷ ("pkce_code_challenge", str challenge)
    ∷ []

module _ (p : Platform) where
  open p use {Token, build, get_claim}

  -- A code token for an identity, signed by this server, with its lifetime in seconds.
  pub record IsCoded (life now : ℕ) (host id challenge : String) (d : p.Db) (code : String)
      : Type 0 where
    pub code_token : Token
    pub built : build (timed_claims life host id challenge now) ≡ ok code_token
    pub signed : sign_jwt p d code_token ≡ ok code

  module _ (cookie_prefix prefix : String) where
    -- The identity with the id of the form is one of the session, the authorization request is one
    -- that this server signed, and the browser is sent to its redirect_uri with the code.
    pub record IsGranted (now : ℕ) (r : Request) (s : World p) : Type 0 where
      pub idents : List Identity
      pub ident : Identity
      pub auth_req : Token
      pub code : String
      pub domain : String
      pub owned : get_identities p now s.db r ≡ ok idents
      pub found : find (λ i. form_get "identity_id" r == i.id) idents ≡ some ident
      pub named : form_get "identity_id" r ≡ ident.id
      pub requested :
          get_jwt_from_cookie p now s.db (cookie_prefix ⧺ "auth_request") r ≡ ok auth_req
      pub coded :
          IsCoded 16 now r.host ident.id
            (claim_from_token p "pkce_code_challenge" auth_req)
            s.db
            code
      pub sent :
          confirm p cookie_prefix prefix now r s
          ≡ redirect (confirm_uri p cookie_prefix prefix auth_req code) 302 (record s {
            w = add_cookie (deleted_cookie p domain (cookie_prefix ⧺ "auth_request")) s.w;
          })

    -- An error status and a text, with the database as it was.
    abbrev pub RefusesLater : World p → Outcome (World p) (Unit {0}) → Type 0
    RefusesLater s o =
        (n : ℕ) × (m : String) × (t : World p) × (300 < n) × (t.db ≡ s.db) × (o ≡ fail n m t)

    clear_cookie-next :
        (host name domain : String) (s : World p)
        → build_cookie_domain host ≡ ok domain
        → clear_cookie p host name s
          ≡ next tt (record s { w = add_cookie (deleted_cookie p domain name) s.w })
    unfolding clear_cookie
    clear_cookie-next host name domain s e = rw (clear_cookie, e)

    confirm_identity-IsGranted :
        (now : ℕ) (r : Request) (s : World p) (idents : List Identity) (ident : Identity)
        → get_identities p now s.db r ≡ ok idents
        → find (λ i. form_get "identity_id" r == i.id) idents ≡ some ident
        → confirm p cookie_prefix prefix now r s
          ≡ confirm_identity p cookie_prefix prefix now r (form_get "identity_id" r) s
        → RefusesLater s (confirm p cookie_prefix prefix now r s) ⊎ IsGranted now r s
    unfolding confirm_identity indie_code_claims
    confirm_identity-IsGranted now r s idents ident owned found go =
        let id = form_get "identity_id" r in
        let (domain, covered, c) = build_cookie_domain-Covers r.host in
        let e0 = clear_cookie-next r.host (cookie_prefix ⧺ "auth_request") domain s covered in
        let named : id ≡ ident.id =
          (eq_iff id ident.id).0 (find-passes (λ (i : Identity). id == i.id) idents ident found) in
        let cleared : World p = record s {
          w = add_cookie (deleted_cookie p domain (cookie_prefix ⧺ "auth_request")) s.w;
        } in
        elim (Result-cases (get_jwt_from_cookie p now s.db (cookie_prefix ⧺ "auth_request") r)) [
          | inr (m, e1) ↦
              inl (401, m, cleared, omega arith, refl, go ∙ rw (confirm_identity, e0, e1))
          | inl (auth_req, e1) ↦
              let challenge = claim_from_token p "pkce_code_challenge" auth_req in
              elim (Result-cases (build (indie_code_claims r.host id challenge now))) [
                | inr (m, e2) ↦
                    inl (500, m, cleared, omega arith, refl, go ∙ rw (confirm_identity, e0, e1, e2))
                | inl (code_token, e2) ↦ elim (Result-cases (sign_jwt p s.db code_token)) [
                  | inr (m, e3) ↦ inl (
                    400,
                    m,
                    cleared,
                    omega arith,
                    refl,
                    go ∙ rw (confirm_identity, e0, e1, e2, e3),
                  )
                  | inl (code, e3) ↦ inr (record {
                    idents = idents;
                    ident = ident;
                    auth_req = auth_req;
                    code = code;
                    domain = domain;
                    owned = owned;
                    found = found;
                    named = named;
                    requested = e1;
                    coded = record {
                      code_token = code_token;
                      built = rw (← named) e2;
                      signed = e3;
                    };
                    sent = go ∙ rw (confirm_identity, e0, e1, e2, e3);
                  })
                ]
              ]
        ]

    -- /confirm refuses with an error, or makes a code for an identity of the request's own login
    -- cookie, with the id that the form names, and sends the browser with it to the redirect_uri of
    -- an authorization request that this server signed.
    pub confirm-IsGranted :
        (now : ℕ) (r : Request) (s : World p)
        → RefusesLater s (confirm p cookie_prefix prefix now r s) ⊎ IsGranted now r s
    unfolding confirm
    confirm-IsGranted now r s =
        let id = form_get "identity_id" r in
        elim (Bool-cases (id == "")) [
          | inl b ↦ inl (400, "Missing identity_id param", s, omega arith, refl, rw (confirm, b))
          | inr b ↦ elim (Result-cases (get_identities p now s.db r)) [
            | inr (m, e1) ↦ inl (401, denied id, s, omega arith, refl, rw (confirm, b, e1))
            | inl (idents, e1) ↦ elim (Option-cases (find (λ i. id == i.id) idents)) [
              | inl e2 ↦ inl (401, denied id, s, omega arith, refl, rw (confirm, b, e1, e2))
              | inr (ident, e2) ↦
                  confirm_identity-IsGranted now r s idents ident e1 e2 (rw (confirm, b, e1, e2))
            ]
          ]
        ]

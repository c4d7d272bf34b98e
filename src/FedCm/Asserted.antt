-- ===== src/FedCm/Asserted.antt =====
-- Whom /id-assertion makes a code for.
use obligator.Base.{
  ℕ, ◌+◌, ◌≡◌, refl, sym, ◌∙◌, ap, String, ◌⧺◌, Result, ok, Option, none, some, List, [], ◌∷◌, ◌++◌,
  ◌==◌, eq_iff, Bool-cases, Result-cases, Option-cases, inl, inr,
}
use obligator.Types.{Claim, str, time, Identity, Request, Url}
use obligator.Platform.{Platform}
use obligator.Handler.{Outcome, next}
use obligator.Handler.After.{final, stop-ne-next}
use obligator.Http.{World, Response, add_header, form_get, header_get, write}
use obligator.Pages.{Body, json, fed_cm_token}
use obligator.Jose.{sign_jwt}
use obligator.Utils.Cookies.{get_identities_fed_cm}
use obligator.Utils.LoginCookie.Merge.{by_id}
use obligator.FedCm.{assert_identity, assertion_claims, challenge_of, choose_identity, id_assertion}

-- The headers of every answer of /id-assertion from the choice of the account on.
abbrev fed_cm_headers : String → Response → Response
fed_cm_headers host w = add_header "Content-Type" "application/json" (
    add_header "Access-Control-Allow-Credentials" "true"
      (add_header "Access-Control-Allow-Origin" ("https://" ⧺ host) w))

body-write_at :
    (b : Body) (host : String) (w : Response) (status : Option ℕ)
    → (write b (fed_cm_headers host (record w { status = status }))).body ≡ w.body ++ b ∷ []
body-write_at b host w none = refl
body-write_at b host w (some n) = refl

module _ (p : Platform) where
  open p use {Db, Token, build, url_parse}

  -- What a code of /id-assertion says: good for 300 seconds, of this host, for the id.
  abbrev pub code_claims_of : String → String → String → ℕ → List (String × Claim)
  code_claims_of host id challenge now =
      ("iat", time now)
      ∷ ("exp", time (now + 300))
      ∷ ("domain", str host)
      ∷ ("id", str id)
      ∷ ("pkce_code_challenge", str challenge)
      ∷ []

  -- The code is signed for an identity of the browser's session, with the account's id.
  pub record IsChosen (unmarshal : String → Result String) (now : ℕ) (r : Request) (d : Db)
      : Type 0 where
    pub idents : List Identity
    pub ident : Identity
    pub challenge : String
    pub token : Token
    pub code : String
    pub by_browser : header_get "Sec-Fetch-Dest" r ≡ "webidentity"
    pub owned : get_identities_fed_cm p now d r ≡ ok idents
    pub chosen : by_id (form_get "account_id" r) idents ≡ some ident
    pub asked : challenge_of unmarshal r ≡ ok challenge
    pub built : build (code_claims_of r.host ident.id challenge now) ≡ ok token
    pub signed : sign_jwt p d token ≡ ok code

  -- The page that asks is on the client's host.
  pub record IsSameOrigin (r : Request) : Type 0 where
    pub origin : Url
    pub client : Url
    pub origin_parsed : url_parse (header_get "Origin" r) ≡ ok origin
    pub client_parsed : url_parse (form_get "client_id" r) ≡ ok client
    pub same : origin.host ≡ client.host

  -- What a response of /id-assertion has after it: the token object with the code.
  abbrev pub AnswersCode : Request → String → World p → World p → Type 0
  AnswersCode r code s t =
      t.w.body
      ≡ s.w.body
        ++ json
            (fed_cm_token code ("https://" ⧺ r.host ⧺ "/.well-known/oauth-authorization-server"))
          ∷ []

  body-answered :
      (r : Request) (host code : String) (s t : World p)
      → next tt (record s {
        w =
            write
              (json (
                fed_cm_token code
                  ("https://" ⧺ r.host ⧺ "/.well-known/oauth-authorization-server")))
              (fed_cm_headers host s.w);
      })
        ≡ next tt t
      → AnswersCode r code s t
  body-answered r host code s t e =
      sym (ap (λ (x : Outcome (World p) (Unit {0})). (final x).w.body) e)
      ∙ body-write_at _ host s.w s.w.status

  choose_identity-IsChosen :
      (unmarshal : String → Result String) (now : ℕ) (r : Request) (host : String) (s t : World p)
      → choose_identity p unmarshal now r host s ≡ next tt t
      → (c : IsChosen unmarshal now r s.db) × AnswersCode r c.code s t
  unfolding choose_identity assert_identity assertion_claims
  choose_identity-IsChosen unmarshal now r host s t e =
      elim (Bool-cases (header_get "Sec-Fetch-Dest" r == "webidentity")) [
        | inr b ↦ absurd (stop-ne-next _ _ tt (rw (choose_identity, b) at e))
        | inl b ↦ elim (Result-cases (challenge_of unmarshal r)) [
          | inr (m, e1) ↦ absurd (stop-ne-next _ _ tt (rw (choose_identity, b, e1) at e))
          | inl (challenge, e1) ↦ elim (Result-cases (get_identities_fed_cm p now s.db r)) [
            | inr (m, e2) ↦ absurd (stop-ne-next _ _ tt (rw (choose_identity, b, e1, e2) at e))
            | inl (idents, e2) ↦ elim (Option-cases (by_id (form_get "account_id" r) idents)) [
              | inl e3 ↦ absurd (stop-ne-next _ _ tt (rw (choose_identity, b, e1, e2, e3) at e))
              | inr (ident, e3) ↦
                  elim (Result-cases (build (assertion_claims r.host ident.id challenge now))) [
                    | inr (m, e4) ↦ absurd (
                        stop-ne-next _ _ tt
                          (rw (choose_identity, b, e1, e2, e3, assert_identity, e4) at e))
                    | inl (token, e4) ↦ elim (Result-cases (sign_jwt p s.db token)) [
                      | inr (m, e5) ↦ absurd (
                          stop-ne-next _ _ tt
                            (rw (choose_identity, b, e1, e2, e3, assert_identity, e4, e5) at e))
                      | inl (code, e5) ↦ (
                        record {
                          idents = idents;
                          ident = ident;
                          challenge = challenge;
                          token = token;
                          code = code;
                          by_browser = (eq_iff _ _).0 b;
                          owned = e2;
                          chosen = e3;
                          asked = e1;
                          built = e4;
                          signed = e5;
                        },
                        body-answered r host code s t
                            (rw (choose_identity, b, e1, e2, e3, assert_identity, e4, e5) at e),
                      )
                    ]
                  ]
            ]
          ]
        ]
      ]

  -- When /id-assertion ends without an error, the request came from the browser's FedCM, for a page
  -- on the client's host, and what the response has after it is the token object with one code: a
  -- signed text that for 300 seconds names this host, the challenge of the request and the id of an
  -- identity of the session, the one of the chosen account.
  pub id_assertion-IsChosen :
      (unmarshal : String → Result String) (now : ℕ) (r : Request) (s t : World p)
      → id_assertion p unmarshal now r s ≡ next tt t
      → IsSameOrigin r × (c : IsChosen unmarshal now r s.db) × AnswersCode r c.code s t
  unfolding id_assertion
  id_assertion-IsChosen unmarshal now r s t e =
      elim (Result-cases (url_parse (header_get "Origin" r))) [
        | inr (m, e1) ↦ absurd (stop-ne-next _ _ tt (rw (id_assertion, e1) at e))
        | inl (origin, e1) ↦ elim (Result-cases (url_parse (form_get "client_id" r))) [
          | inr (m, e2) ↦ absurd (stop-ne-next _ _ tt (rw (id_assertion, e1, e2) at e))
          | inl (client, e2) ↦ elim (Bool-cases (origin.host == client.host)) [
            | inr b ↦ absurd (stop-ne-next _ _ tt (rw (id_assertion, e1, e2, b) at e))
            | inl b ↦
                let (chosen, answered) =
                  choose_identity-IsChosen unmarshal now r client.host s t
                    (rw (id_assertion, e1, e2, b) at e) in
                (
                  record {
                    origin = origin;
                    client = client;
                    origin_parsed = e1;
                    client_parsed = e2;
                    same = (eq_iff _ _).0 b;
                  },
                  chosen,
                  answered,
                )
          ]
        ]
      ]

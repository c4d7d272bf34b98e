-- ===== src/Oidc/AuthRequest.antt =====
-- oidc.go, ParseAuthRequest; /auth and IndieAuth's /auth begin with it.
use obligator.Base.{
  ◌≡◌, ◌≢◌, String, ◌⧺◌, true, false, not, ok, or_say, ◌==◌, eq_iff, text_ne, ◌⊎◌, inl, inr,
  Bool-cases, Result-cases, if◌then◌else◌,
}
use obligator.Types.{Request, Url}
use obligator.Platform.{Platform}
use obligator.Handler.{◌>>=◌, ◌>>◌, next, Outcome}
use obligator.Http.{Action, World, form_get, fail, fail_if, or_fail, redirect, pure}

pub record OAuth2AuthRequest : Type 0 where
  pub client_id : String
  pub redirect_uri : String
  pub scope : String
  pub state : String
  pub response_type : String
  pub code_challenge : String

abbrev pub error_uri : String → String → String → String
error_uri redirect_uri error state = redirect_uri ⧺ "?error=" ⧺ error ⧺ "&state=" ⧺ state

abbrev pub requested : Request → OAuth2AuthRequest
requested r = record {
  client_id = form_get "client_id" r;
  redirect_uri = form_get "redirect_uri" r;
  scope = form_get "scope" r;
  state = form_get "state" r;
  response_type = form_get "response_type" r;
  code_challenge = form_get "code_challenge" r;
}

module _ (p : Platform) where
  open p use {url_parse}

  -- An error stops the handler: both callers return on it.
  unfoldable pub parse_auth_request : Request → Action p OAuth2AuthRequest
  parse_auth_request r = do
    let client_id = form_get "client_id" r
    fail_if (client_id == "") 400 "client_id missing"
    let redirect_uri = form_get "redirect_uri" r
    fail_if (redirect_uri == "") 400 "redirect_uri missing"
    parsed_client_id ← or_fail 400 (or_say (url_parse client_id) "client_id is not a valid URI")
    parsed_redirect ←
        or_fail 400 (or_say (url_parse redirect_uri) "redirect_uri is not a valid URI")
    fail_if (not (parsed_client_id.host == parsed_redirect.host)) 400
        "redirect_uri must be on the same domain as client_id"
    let state = form_get "state" r
    if form_get "prompt" r == "none"
        then redirect (error_uri redirect_uri "interaction_required" state) 303
        else if form_get "response_type" r == ""
        then redirect (error_uri redirect_uri "unsupported_response_type" state) 303
        else pure (requested r)

  -- Both texts are URIs with one host.
  pub record IsSameHost (client_id redirect_uri : String) : Type 0 where
    pub client : Url
    pub target : Url
    pub client_parsed : url_parse client_id ≡ ok client
    pub target_parsed : url_parse redirect_uri ≡ ok target
    pub same : client.host ≡ target.host

  -- The decision on a request: an error page and no redirect, a redirect back to the client's own
  -- host with an OAuth error, or a request to go on with.
  abbrev pub IsDecided : Request → World p → Outcome (World p) OAuth2AuthRequest → Type 0
  IsDecided r s o =
      ((m : String) × (o ≡ fail 400 m s))
      ⊎ ((e : String) × IsSameHost (form_get "client_id" r) (form_get "redirect_uri" r)
          × ((form_get "prompt" r ≡ "none") ⊎ (form_get "response_type" r ≡ ""))
          × (o ≡ redirect (error_uri (form_get "redirect_uri" r) e (form_get "state" r)) 303 s))
      ⊎ (IsSameHost (form_get "client_id" r) (form_get "redirect_uri" r)
          × (form_get "client_id" r ≢ "")
          × (form_get "redirect_uri" r ≢ "")
          × (form_get "prompt" r ≢ "none")
          × (form_get "response_type" r ≢ "")
          × (o ≡ next (requested r) s))

  module _ (r : Request) (s : World p) where
    -- What is left when both URIs have been checked.
    after_hosts :
        (client target : Url)
        → (form_get "client_id" r == "") ≡ false
        → (form_get "redirect_uri" r == "") ≡ false
        → url_parse (form_get "client_id" r) ≡ ok client
        → url_parse (form_get "redirect_uri" r) ≡ ok target
        → (client.host == target.host) ≡ true
        → IsDecided r s (parse_auth_request r s)
    unfolding parse_auth_request
    after_hosts client target b1 b2 e1 e2 b3 =
        let same : IsSameHost (form_get "client_id" r) (form_get "redirect_uri" r) = record {
          client = client;
          target = target;
          client_parsed = e1;
          target_parsed = e2;
          same = (eq_iff _ _).0 b3;
        } in
        elim (Bool-cases (form_get "prompt" r == "none")) [
          | inl b4 ↦ inr (
              inl (
                "interaction_required",
                same,
                inl ((eq_iff _ _).0 b4),
                rw (b1, b2, e1, e2, b3, b4),
              ))
          | inr b4 ↦ elim (Bool-cases (form_get "response_type" r == "")) [
            | inl b5 ↦ inr (
                inl (
                  "unsupported_response_type",
                  same,
                  inr ((eq_iff _ _).0 b5),
                  rw (b1, b2, e1, e2, b3, b4, b5),
                ))
            | inr b5 ↦ inr (
                inr (
                  same,
                  text_ne _ _ b1,
                  text_ne _ _ b2,
                  text_ne _ _ b4,
                  text_ne _ _ b5,
                  rw (b1, b2, e1, e2, b3, b4, b5),
                ))
          ]
        ]

    -- A request is refused with an error page, or sent back with an OAuth error to its own
    -- redirect_uri, or gone on with as it stands; in the last two cases client_id and redirect_uri
    -- are URIs with one host, and in the last one prompt is not none and there is a response type.
    pub parse_auth_request-IsDecided : IsDecided r s (parse_auth_request r s)
    unfolding parse_auth_request
    parse_auth_request-IsDecided = elim (Bool-cases (form_get "client_id" r == "")) [
      | inl b1 ↦ inl ("client_id missing", rw b1)
      | inr b1 ↦ elim (Bool-cases (form_get "redirect_uri" r == "")) [
        | inl b2 ↦ inl ("redirect_uri missing", rw (b1, b2))
        | inr b2 ↦ elim (Result-cases (url_parse (form_get "client_id" r))) [
          | inr (m, e1) ↦ inl ("client_id is not a valid URI", rw (b1, b2, e1))
          | inl (client, e1) ↦ elim (Result-cases (url_parse (form_get "redirect_uri" r))) [
            | inr (m, e2) ↦ inl ("redirect_uri is not a valid URI", rw (b1, b2, e1, e2))
            | inl (target, e2) ↦ elim (Bool-cases (client.host == target.host)) [
              | inr b3 ↦
                  inl (
                    "redirect_uri must be on the same domain as client_id",
                    rw (b1, b2, e1, e2, b3),
                  )
              | inl b3 ↦ after_hosts client target b1 b2 e1 e2 b3
            ]
          ]
        ]
      ]
    ]

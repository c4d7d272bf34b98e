-- ===== src/IndieAuth.antt =====
-- indieauth.go: the handlers of IndieAuth, a login with an address of this server. The token that
-- /auth keeps in its cookie is read by /confirm, which makes the code that /token exchanges.
pub mod Granted
pub mod Redeem
use obligator.Base.{
  ℕ, ◌+◌, String, ◌⧺◌, Bool, true, false, not, or_err, ok_or, is_ok, Option, List, [], ◌∷◌, ◌==◌,
  if◌then◌else◌, find,
}
use obligator.Types.{Claim, str, time, Identity, Request}
use obligator.Pages.{
  OAuth2ServerMetadata, IndieAuthResponse, indie_auth, indie_auth_response, metadata, json,
}
use obligator.Platform.{Platform, Database}
use obligator.Handler.{◌>>=◌, ◌>>◌, next}
use obligator.Http.{
  Action, form_get, fail_if, or_fail, redirect, gets, set_header, respond, write, show_page,
}
use obligator.Jose.{parse_jwt, sign_jwt}
use obligator.Utils.CookieDomain.{domain_to_uri}
use obligator.Utils.Cookies.{
  claim_from_token, get_identities, get_jwt_from_cookie, set_jwt_cookie, set_return_uri_cookie,
  clear_cookie,
}
use obligator.Utils.CommonPage.{new_common_data, blank}
use obligator.Oidc.AuthRequest.{OAuth2AuthRequest, parse_auth_request}
use obligator.Oidc.Pkce.{check_verifier}

-- The user's page on the host.
abbrev pub user_url : String → String → String
user_url host id = "https://" ⧺ host ⧺ "/u/" ⧺ id

abbrev pub denied : String → String
denied id = "You don't have permission to log in as " ⧺ id

-- What the code's identity is answered with; the name and the photo stay blank.
unfoldable pub profile_response : String → String → IndieAuthResponse
profile_response host id = record {
  me_uri = user_url host id;
  profile = record { name = ""; url = user_url host id; photo = ""; email = id };
  access_token = "fake-access-token";
  token_type = "bearer";
}

unfoldable pub indie_request_claims : OAuth2AuthRequest → Request → ℕ → List (String × Claim)
indie_request_claims ar r now =
    ("iat", time now)
    ∷ ("exp", time (now + 480))
    ∷ ("client_id", str ar.client_id)
    ∷ ("redirect_uri", str ar.redirect_uri)
    ∷ ("state", str ar.state)
    ∷ ("scope", str (form_get "scope" r))
    ∷ ("nonce", str (form_get "nonce" r))
    ∷ ("pkce_code_challenge", str (form_get "code_challenge" r))
    ∷ ("response_type", str ar.response_type)
    ∷ []

unfoldable pub indie_code_claims : String → String → String → ℕ → List (String × Claim)
indie_code_claims host id challenge now =
    ("iat", time now)
    ∷ ("exp", time (now + 16))
    ∷ ("domain", str host)
    ∷ ("id", str id)
    ∷ ("pkce_code_challenge", str challenge)
    ∷ []

-- uri is https:// and the host of the request, prefix is where the handlers are mounted.
unfoldable pub indie_metadata : String → String → OAuth2ServerMetadata
indie_metadata uri prefix = record {
  issuer = uri;
  authorization_endpoint = uri ⧺ prefix ⧺ "/auth";
  token_endpoint = uri ⧺ prefix ⧺ "/token";
  userinfo_endpoint = "";
  jwks_uri = "";
  scopes_supported = [];
  response_types_supported = [];
  id_token_signing_alg_values_supported = [];
  code_challenge_methods_supported = "S256" ∷ [];
  subject_types_supported = [];
  registration_endpoint = "";
  token_endpoint_auth_methods_supported = [];
  introspection_endpoint = uri ⧺ prefix ⧺ "/introspect";
  end_session_endpoint = "";
}

module _ (p : Platform) where
  open p use {Db, db, Token, get_claim, build}

  -- The answer of /token for an identity.
  abbrev pub profile_reply : String → String → Action p (Unit {0})
  profile_reply host id = do
    set_header "Content-Type" "application/json"
    respond (write (json (indie_auth_response (profile_response host id))))

  -- The second test is on the domain again, as in the source.
  unfoldable pub handle_token : ℕ → Request → Action p (Unit {0})
  handle_token now r = do
    d ← gets (λ s. s.db)
    parsed_code ← or_fail 401 (parse_jwt p now d (form_get "code" r))
    let domain = claim_from_token p "domain" parsed_code
    fail_if (not (domain == r.host)) 400 "Invalid domain"
    let id = claim_from_token p "id" parsed_code
    fail_if (not (domain == r.host)) 400 "Invalid id"
    fits ← or_fail 401 (
        check_verifier p (get_claim "pkce_code_challenge" parsed_code) (form_get "code_verifier" r))
    profile_reply r.host id

  module _ (cookie_prefix prefix : String) where
    abbrev show_indie_auth : ℕ → Request → OAuth2AuthRequest → Action p (Unit {0})
    show_indie_auth now r ar = do
      d ← gets (λ s. s.db)
      providers ← or_fail 500 (db.get_oauth2_providers d)
      set_return_uri_cookie p r.host (prefix ⧺ r.path ⧺ "?" ⧺ r.raw_query)
      show_page p 500 (
          indie_auth (new_common_data p blank now d r) (record {
            client_id = ar.client_id;
            can_email = is_ok (db.get_smtp_config d);
            disable_qr_login = true;
            oauth2_providers = providers;
          }))

    abbrev indie_login : ℕ → Request → Action p (Unit {0})
    indie_login now r = do
      ar ← parse_auth_request p r
      auth_request_jwt ← or_fail 500 (build (indie_request_claims ar r now))
      set_jwt_cookie p r.host auth_request_jwt (cookie_prefix ⧺ "auth_request") 480
      show_indie_auth now r ar

    unfoldable pub indie_auth_handler : ℕ → Request → Action p (Unit {0})
    indie_auth_handler now r = if r.method == "POST" then handle_token now r else indie_login now r

    abbrev pub confirm_uri : Token → String → String
    confirm_uri auth_req code =
        claim_from_token p "redirect_uri" auth_req
        ⧺ "?client_id="
        ⧺ claim_from_token p "client_id" auth_req
        ⧺ "&redirect_uri="
        ⧺ claim_from_token p "redirect_uri" auth_req
        ⧺ "&code="
        ⧺ code
        ⧺ "&state="
        ⧺ claim_from_token p "state" auth_req
        ⧺ "&scope="
        ⧺ claim_from_token p "scope" auth_req

    -- The part of /confirm after the identity was found among the session's.
    unfoldable pub confirm_identity : ℕ → Request → String → Action p (Unit {0})
    confirm_identity now r id = do
      clear_cookie p r.host (cookie_prefix ⧺ "auth_request")
      d ← gets (λ s. s.db)
      auth_req ← or_fail 401 (get_jwt_from_cookie p now d (cookie_prefix ⧺ "auth_request") r)
      code_jwt ← or_fail 500 (
          build
            (indie_code_claims r.host id (claim_from_token p "pkce_code_challenge" auth_req) now))
      signed_code ← or_fail 400 (sign_jwt p d code_jwt)
      redirect (confirm_uri auth_req signed_code) 302

    unfoldable pub confirm : ℕ → Request → Action p (Unit {0})
    confirm now r = do
      let id = form_get "identity_id" r
      fail_if (id == "") 400 "Missing identity_id param"
      d ← gets (λ s. s.db)
      match_ident ← or_fail 401 (
          or_err (find (λ ident. id == ident.id) (ok_or [] (get_identities p now d r))) (denied id))
      confirm_identity now r id

    unfoldable pub indie_metadata_handler : Request → Action p (Unit {0})
    indie_metadata_handler r = do
      set_header "Access-Control-Allow-Origin" "*"
      set_header "Content-Type" "application/json;charset=UTF-8"
      respond (write (json (metadata (indie_metadata (domain_to_uri r.host) prefix))))

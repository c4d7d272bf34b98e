-- ===== src/Upstream.antt =====
-- add_identity_oauth2.go: login at another OAuth2 provider. The provider's metadata, keys and HTTP
-- answers are parameters.
pub mod Admitted
pub mod Answered
pub mod Vouched
use obligator.Base.{
  ℕ, ◌+◌, String, ◌⧺◌, Bool, true, false, not, ◌&&◌, Result, ok, err, or_say, ok_or, Option, none,
  some, List, [], ◌∷◌, ◌==◌, if◌then◌else◌, leb, ◌⊎◌, inl, inr,
}
use obligator.Types.{Claim, str, time, Identity, OAuth2Provider, Request}
use obligator.Pages.{OAuth2ServerMetadata, OAuth2TokenResponse}
use obligator.Platform.{Platform, Database}
use obligator.Handler.{◌>>=◌, ◌>>◌, next}
use obligator.Http.{
  set_random, Action, World, cookie_value, form_get, fail_silent, or_fail, or_fail_silent, redirect,
  gets, pure, set_header, set_cookie,
}
use obligator.Jose.{parse_jwt}
use obligator.Utils.Random.{gen_random_key}
use obligator.Utils.CookieDomain.{domain_to_uri}
use obligator.Utils.Cookies.{
  get_login_cookie, get_return_uri_cookie, delete_return_uri_cookie, set_jwt_cookie, clear_cookie,
  claim_from_token, text_of, valid_user, set_login_cookie,
}
use obligator.Utils.LoginCookie.{add_ident_to_cookie}
use obligator.Oidc.Pkce.{generate_pkce_data}

-- The answer of an HTTP request: a status, and what its body decodes to.
abbrev pub Reply : Type 0 → Type 0
Reply A = Result (ℕ × Result A)

-- resp.StatusCode != 200
abbrev pub accepted : {A : Type 0} → Reply A → Result A
accepted (err m) = err m
accepted (ok (status, body)) =
    if leb status 200 && leb 200 status then body else err "Request failed with invalid status"

abbrev pub or_text : String → String → String
or_text s d = if s == "" then d else s

unfoldable pub upstream_claims :
    OAuth2Provider → String → String → String → ℕ → List (String × Claim)
upstream_claims provider state nonce verifier now =
    ("iat", time now)
    ∷ ("exp", time (now + 480))
    ∷ ("provider_id", str provider.id)
    ∷ ("state", str state)
    ∷ ("nonce", str nonce)
    ∷ ("pkce_code_verifier", str verifier)
    ∷ []

abbrev pub upstream_uri : String → String → String → String → String → String → String → String
upstream_uri auth_url client_id callback_uri state scope challenge nonce =
    auth_url ⧺ "?client_id=" ⧺ client_id ⧺ "&redirect_uri=" ⧺ callback_uri ⧺ "&state=" ⧺ state
    ⧺ "&scope=" ⧺ scope ⧺ "&response_type=code&code_challenge_method=S256&code_challenge="
    ⧺ challenge ⧺ "&nonce=" ⧺ nonce ⧺ "&prompt=consent"

-- The address that GitHub calls primary.
unfoldable pub primary_email : List (String × Bool) → Result String
primary_email [] = err "Unknown GetProfile error"
primary_email ((email, primary) ∷ more) =
    let rest = primary_email more in if primary then ok email else rest

abbrev primary_of : Result (List (String × Bool)) → Result String
primary_of (ok emails) = primary_email emails
primary_of (err m) = err m

unfoldable pub get_profile :
    (String → Reply (List (String × Bool))) → OAuth2Provider → String → Result String
get_profile github_emails provider access_token =
    if provider.id == "github"
    then primary_of (accepted (github_emails access_token))
    else err "Unknown GetProfile error"

abbrev pub upstream_identity : OAuth2Provider → String → String → Identity
upstream_identity provider email name = record {
  id_type = "email";
  id = email;
  provider_name = provider.name;
  name = name;
  email = email;
  email_verified = true;
}

module _ (p : Platform) where
  open p use {Db, db, Token, Keyset, Source, build, get_claim, jwt_parse}

  module _ (prefix : String) (get_meta : String → Result OAuth2ServerMetadata) where
    abbrev auth_url_of : OAuth2Provider → Action p String
    auth_url_of provider =
        if provider.open_id_connect
        then (or_fail 500 (get_meta provider.id) >>= λ meta. pure meta.authorization_endpoint)
        else pure provider.authorization_uri

    unfoldable pub login_oauth2 : ℕ → Request → Action p (Unit {0})
    login_oauth2 now r = do
      d ← gets (λ s. s.db)
      provider ← or_fail 500 (db.get_oauth2_provider_by_id (form_get "oauth2_provider_id" r) d)
      auth_url ← auth_url_of provider
      src ← gets (λ s. s.random)
      pkce ← or_fail 500 (generate_pkce_data p src)
      state ← or_fail 500 (or_say (gen_random_key p pkce.2) "Failed to generate state")
      nonce ← or_fail 500 (or_say (gen_random_key p state.1) "Failed to generate nonce")
      set_random nonce.1
      req_jwt ← or_fail 500 (build (upstream_claims provider state.0 nonce.0 pkce.1 now))
      set_jwt_cookie p r.host req_jwt (prefix ⧺ "upstream_oauth2_request") 480
      redirect
          (upstream_uri auth_url (or_text provider.client_id (domain_to_uri r.host))
            (domain_to_uri r.host ⧺ "/callback") state.0
            (or_text provider.scope "openid email profile") pkce.0 nonce.0)
          303

    -- Facebook has no token endpoint in its metadata.
    unfoldable pub token_endpoint : OAuth2Provider → Result String
    token_endpoint provider =
        if provider.open_id_connect && not (provider.id == "facebook")
        then (elim (get_meta provider.id) [ err m ↦ err m | ok meta ↦ ok meta.token_endpoint ])
        else ok provider.token_uri

    -- The form of the token request.
    abbrev pub token_request : OAuth2Provider → Request → Token → List (String × String)
    token_request provider r auth_req =
        ("code", form_get "code" r)
        ∷ ("client_id", provider.client_id)
        ∷ ("client_secret", provider.client_secret)
        ∷ ("redirect_uri", domain_to_uri r.host ⧺ "/callback")
        ∷ ("grant_type", "authorization_code")
        ∷ ("code_verifier", claim_from_token p "pkce_code_verifier" auth_req)
        ∷ []

    module _ (get_keyset : String → Result Keyset)
        (post : String → List (String × String) → Reply OAuth2TokenResponse)
        (github_emails : String → Reply (List (String × Bool))) where
      -- The nonce is the one of the request, or the status of the error.
      unfoldable pub check_nonce : Option Claim → String → ℕ ⊎ Unit {0}
      check_nonce none nonce = inl 400
      check_nonce (some (str given)) nonce = if nonce == given then inr tt else inl 403
      check_nonce (some _) nonce = inl 400

      abbrev pub or_status : ℕ ⊎ Unit {0} → Action p (Unit {0})
      or_status (inl n) = fail_silent n
      or_status (inr done) = pure tt

      -- The address and the name; an error of GetProfile is dropped, and leaves "".
      unfoldable pub profile_of :
          ℕ → OAuth2Provider → Token → OAuth2TokenResponse → Action p (String × String)
      profile_of now provider auth_req reply =
          if provider.open_id_connect
          then (do
            keyset ← or_fail_silent 500 (get_keyset provider.id)
            oidc_token ← or_fail_silent 500 (jwt_parse now keyset reply.id_token)
            or_status
                (check_nonce (get_claim "nonce" oidc_token) (claim_from_token p "nonce" auth_req))
            pure (text_of (get_claim "email" oidc_token), text_of (get_claim "name" oidc_token)))
          else pure (ok_or "" (get_profile github_emails provider reply.access_token), "")

      unfoldable pub admit :
          ℕ → Request → OAuth2Provider → String × String → String → Action p (Unit {0})
      admit now r provider (email, name) return_uri = do
        delete_return_uri_cookie p r.host
        s ← gets (λ s. s)
        cookie ← or_fail_silent 500 (
            add_ident_to_cookie p now r.host s.db (ok_or "" (get_login_cookie p s.db r))
              (upstream_identity provider email name) s.random)
        set_random cookie.1
        set_login_cookie p cookie.0
        clear_cookie p r.host (prefix ⧺ "upstream_oauth2_request")
        redirect
            (if return_uri == "/approve" then return_uri ⧺ "?identity_id=" ⧺ email else return_uri)
            303

      unfoldable pub admit_if_known :
          ℕ → Request → OAuth2Provider → String × String → Action p (Unit {0})
      admit_if_known now r provider profile = do
        d ← gets (λ s. s.db)
        users ← or_fail_silent 500 (db.get_users d)
        return_uri ← or_fail_silent 500 (get_return_uri_cookie p d r)
        config ← or_fail_silent 500 (db.get_config d)
        if not config.is_public && not (valid_user profile.0 users)
            then redirect (domain_to_uri r.host ⧺ "/no-account?" ⧺ return_uri) 303
            else admit now r provider profile return_uri

      unfoldable pub callback : ℕ → Request → Action p (Unit {0})
      callback now r = do
        d ← gets (λ s. s.db)
        value ← or_fail 500 (cookie_value (prefix ⧺ "upstream_oauth2_request") r)
        auth_req ← or_fail 500 (parse_jwt p now d value)
        provider ←
            or_fail 500 (db.get_oauth2_provider_by_id (claim_from_token p "provider_id" auth_req) d)
        endpoint ← or_fail 500 (token_endpoint provider)
        reply ← or_fail_silent 500 (accepted (post endpoint (token_request provider r auth_req)))
        profile ← profile_of now provider auth_req reply
        admit_if_known now r provider profile

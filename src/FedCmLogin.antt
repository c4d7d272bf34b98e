-- ===== src/FedCmLogin.antt =====
-- add_identity_fedcm.go: login with a token that another server gave to the browser's FedCM. What
-- its metadata and its key set are is the network's answer.
pub mod Asserted
use obligator.Base.{
  ℕ, String, Bool, true, false, not, Result, ok, ok_or, Option, none, some, List, [], ◌∷◌, ◌==◌,
  if◌then◌else◌,
}
use obligator.Types.{Claim, audience, Identity, Request}
use obligator.Pages.{OAuth2ServerMetadata, plain}
use obligator.Platform.{Platform}
use obligator.Handler.{◌>>=◌, ◌>>◌, next}
use obligator.Http.{
  set_random, Action, form_get, fail, fail_if, or_fail, redirect, gets, pure, set_header,
  set_cookie, show_page,
}
use obligator.Utils.CookieDomain.{domain_to_uri}
use obligator.Utils.Cookies.{
  get_login_cookie, get_return_uri_cookie, delete_return_uri_cookie, text_of,
}
use obligator.Utils.CommonPage.{new_common_data, blank}
use obligator.Utils.LoginCookie.{add_ident_to_cookie}
use obligator.Upstream.{Reply}
use obligator.Metadata.{get_oidc_configuration}

-- Audience() of the token.
abbrev pub audience_of : Option Claim → List String
audience_of (some (audience l)) = l
audience_of _ = []

unfoldable pub fed_cm_identity : String → String → String → Identity
fed_cm_identity issuer email name = record {
  id_type = "email";
  id = email;
  provider_name = issuer;
  name = name;
  email = email;
  email_verified = true;
}

module _ (p : Platform) where
  open p use {Token, Keyset, get_claim, jwt_parse}

  unfoldable pub login_fed_cm_handler : ℕ → Request → Action p (Unit {0})
  login_fed_cm_handler now r = do
    d ← gets (λ s. s.db)
    show_page p 500 (plain "login-fedcm.html" (new_common_data p blank now d r))

  -- The first audience has to be this server.
  unfoldable pub check_audience : List String → String → Action p (Unit {0})
  check_audience [] uri = fail 400 "FedCM: Missing aud in OIDC token"
  check_audience (first ∷ more) uri =
      fail_if (not (first == uri)) 401 "FedCM: Wrong aud in OIDC token"

  unfoldable pub admit_fed_cm : ℕ → Request → Identity → Action p (Unit {0})
  admit_fed_cm now r new_ident = do
    s ← gets (λ s. s)
    cookie ← or_fail 500 (
        add_ident_to_cookie p now r.host s.db (ok_or "" (get_login_cookie p s.db r)) new_ident
          s.random)
    set_random cookie.1
    return_uri ← or_fail 500 (get_return_uri_cookie p s.db r)
    delete_return_uri_cookie p r.host
    set_header "Set-Login" "logged-in"
    set_cookie cookie.0
    redirect return_uri 303

  -- jwt.ParseInsecure, the GET of a document, Register and Refresh of jwk.Cache, and the test of the
  -- parsed token's type.
  module _ (parse_insecure : String → Result Token) (http_get : String → Reply OAuth2ServerMetadata)
      (register : String → Result (Unit {0})) (refresh : String → Result Keyset)
      (is_openid : Token → Bool) where
    unfoldable pub complete_login_fed_cm : ℕ → Request → Action p (Unit {0})
    complete_login_fed_cm now r = do
      fail_if (not (r.method == "POST")) 405 "Invalid method"
      let fed_cm_token = form_get "fedcm-token" r
      unverified_token ← or_fail 500 (parse_insecure fed_cm_token)
      let issuer = text_of (get_claim "iss" unverified_token)
      oidc_meta ← or_fail 500 (get_oidc_configuration http_get issuer)
      registered ← or_fail 500 (register oidc_meta.jwks_uri)
      keyset ← or_fail 500 (refresh oidc_meta.jwks_uri)
      verified_token ← or_fail 500 (jwt_parse now keyset fed_cm_token)
      fail_if (not (is_openid verified_token)) 500 "FedCM: Not a valid OpenId Connect token"
      check_audience (audience_of (get_claim "aud" verified_token)) (domain_to_uri r.host)
      admit_fed_cm now r (
          fed_cm_identity issuer (text_of (get_claim "email" verified_token))
            (text_of (get_claim "name" verified_token)))

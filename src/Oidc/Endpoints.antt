-- ===== src/Oidc/Endpoints.antt =====
-- oidc.go, the handlers of discovery, registration, key set, logout page and /userinfo.
pub mod Userinfo
use obligator.Base.{
  ℕ, ◌≡◌, String, ◌⧺◌, Bool, true, false, Result, ok, err, List, [], ◌∷◌, split, ◌==◌,
  if◌then◌else◌,
}
use obligator.Types.{Request}
use obligator.Pages.{OAuth2ServerMetadata, metadata, userinfo, registration, jwks, json, logout}
use obligator.Platform.{Platform}
use obligator.Handler.{◌>>=◌, ◌>>◌}
use obligator.Http.{
  Action, form_get, header_get, fail, fail_silent, or_fail, or_fail_silent, set_header, respond,
  write, write_header, gets, pure, show_page,
}
use obligator.Jose.{parse_jwt, get_public_jwks}
use obligator.Utils.CookieDomain.{domain_to_uri}
use obligator.Utils.CommonPage.{new_common_data, blank}

-- uri is https:// and the host of the request.
unfoldable pub server_metadata : String → OAuth2ServerMetadata
server_metadata uri = record {
  issuer = uri;
  authorization_endpoint = uri ⧺ "/auth";
  token_endpoint = uri ⧺ "/token";
  userinfo_endpoint = uri ⧺ "/userinfo";
  jwks_uri = uri ⧺ "/jwks";
  scopes_supported = "openid" ∷ "email" ∷ "profile" ∷ [];
  response_types_supported = "code" ∷ [];
  id_token_signing_alg_values_supported = "RS256" ∷ [];
  code_challenge_methods_supported = "S256" ∷ [];
  subject_types_supported = "public" ∷ [];
  registration_endpoint = uri ⧺ "/register";
  token_endpoint_auth_methods_supported = "none" ∷ [];
  introspection_endpoint = "";
  end_session_endpoint = uri ⧺ "/end-session";
}

abbrev pub json_type : String
json_type = "application/json;charset=UTF-8"

-- len(parts) != 2
unfoldable pub bearer_token : String → Result String
bearer_token header = elim (split b' ' header) [
  | scheme ∷ value ∷ [] ↦ ok value
  | _ ↦ err "Invalid Authorization header"
]

module _ (p : Platform) where
  open p use {subject, url_parse}

  unfoldable pub openid_configuration : Request → Action p (Unit {0})
  openid_configuration r = do
    set_header "Access-Control-Allow-Origin" "*"
    set_header "Content-Type" json_type
    respond (write (json (metadata (server_metadata ("https://" ⧺ r.host)))))

  unfoldable pub end_session : ℕ → Request → Action p (Unit {0})
  end_session now r = do
    let redir_uri = form_get "post_logout_redirect_uri" r
    parsed_redir_uri ← or_fail 400 (url_parse redir_uri)
    d ← gets (λ s. s.db)
    show_page p 500 (logout (new_common_data p blank now d r) parsed_redir_uri.host redir_uri)

  -- The key set is written as JSON: what is in it is the library's.
  unfoldable pub jwks_handler : Action p (Unit {0})
  jwks_handler = do
    set_header "Access-Control-Allow-Origin" "*"
    set_header "Content-Type" "application/json"
    d ← gets (λ s. s.db)
    public_jwks ← or_fail_silent 500 (get_public_jwks p d)
    respond (write (json jwks))

  abbrev register_client : String → Action p (Unit {0})
  register_client redirect_uri = do
    parsed_client_id_url ← or_fail 400 (url_parse redirect_uri)
    set_header "Content-Type" json_type
    respond (write_header 201)
    respond (write (json (registration ("https://" ⧺ parsed_client_id_url.host))))

  -- The decoded redirect_uris of the body, or the decoder's error.
  unfoldable pub register : Result (List String) → Action p (Unit {0})
  register (err m) = fail_silent 400
  register (ok []) = fail 400 "Need at least one redirect_uri"
  register (ok (redirect_uri ∷ more)) = register_client redirect_uri

  unfoldable pub userinfo_handler : ℕ → Request → Action p (Unit {0})
  userinfo_handler now r = do
    access_token ← or_fail 400 (bearer_token (header_get "Authorization" r))
    d ← gets (λ s. s.db)
    parsed ← or_fail 401 (parse_jwt p now d access_token)
    set_header "Content-Type" json_type
    respond (write (json (userinfo (record { sub = subject parsed; email = subject parsed }))))

-- ===== src/FedCm.antt =====
-- fedcm.go: the server as an identity provider of the browser's FedCM. The browser sends
-- Sec-Fetch-Dest, which no page can set.
pub mod Asserted
pub mod Redeemed
use obligator.Base.{
  ℕ, ◌+◌, String, ◌⧺◌, Bool, true, false, not, Result, ok, err, ok_or, or_err, Option, none, some,
  List, [], ◌∷◌, ◌==◌, if◌then◌else◌, find, map,
}
use obligator.Types.{Claim, str, time, Identity, Request}
use obligator.Pages.{
  Account, Json, json, provider_urls, fed_cm_config, accounts, client_metadata, fed_cm_error,
  fed_cm_token,
}
use obligator.Platform.{Platform}
use obligator.Handler.{◌>>=◌, ◌>>◌, next, stop}
use obligator.Http.{
  Action, World, form_get, header_get, fail, fail_if, or_fail, gets, pure, set_header, respond,
  write, write_header, halt,
}
use obligator.Jose.{sign_jwt}
use obligator.Utils.CookieDomain.{domain_to_uri}
use obligator.Utils.Cookies.{get_identities_fed_cm}

unfoldable pub account_of : Identity → Account
account_of ident = record {
  id = ident.id;
  name = if ident.name == "" then "No Name" else ident.name;
  email = ident.id;
}

unfoldable pub assertion_claims : String → String → String → ℕ → List (String × Claim)
assertion_claims host id challenge now =
    ("iat", time now)
    ∷ ("exp", time (now + 300))
    ∷ ("domain", str host)
    ∷ ("id", str id)
    ∷ ("pkce_code_challenge", str challenge)
    ∷ []

-- Where the browser finds the configuration.
unfoldable pub identity_document : String → Json
identity_document uri = provider_urls ((uri ⧺ "/fedcm/config.json") ∷ [])

unfoldable pub config_document : String → String → Json
config_document uri login_endpoint =
    fed_cm_config (uri ⧺ "/fedcm/accounts") (uri ⧺ "/fedcm/id-assertion") (uri ⧺ login_endpoint)
      ("indieauth" ∷ [])

-- The code_challenge in the params, which `unmarshal` decodes, or else the nonce.
unfoldable pub challenge_of : (String → Result String) → Request → Result String
challenge_of unmarshal r =
    if form_get "params" r == "" then ok (form_get "nonce" r) else unmarshal (form_get "params" r)

module _ (p : Platform) where
  open p use {Db, build, url_parse}

  unfoldable pub web_identity : Request → Action p (Unit {0})
  web_identity r = do
    set_header "Content-Type" "application/json"
    respond (write (json (identity_document (domain_to_uri r.host))))

  unfoldable pub fed_cm_config_handler : String → Request → Action p (Unit {0})
  fed_cm_config_handler login_endpoint r = do
    let uri = domain_to_uri r.host
    set_header "Content-Type" "application/json"
    respond (write (json (config_document uri login_endpoint)))

  abbrev list_accounts : List Identity → Action p (Unit {0})
  list_accounts [] = fail 401 "No identities available"
  list_accounts (ident ∷ idents) = do
    set_header "Content-Type" "application/json"
    respond (write (json (accounts (map account_of (ident ∷ idents)))))

  unfoldable pub accounts_handler : ℕ → Request → Action p (Unit {0})
  accounts_handler now r = do
    fail_if (not (header_get "Sec-Fetch-Dest" r == "webidentity")) 401
        "Sec-Fetch-Dest != webidentity"
    d ← gets (λ s. s.db)
    list_accounts (ok_or [] (get_identities_fed_cm p now d r))

  unfoldable pub client_metadata_handler : Request → Action p (Unit {0})
  client_metadata_handler r = do
    set_header "Content-Type" "application/json"
    respond (write (json (client_metadata (domain_to_uri r.host) (domain_to_uri r.host))))

  -- w.WriteHeader(401) and the JSON of the error; return
  abbrev pub unauthorized : Action p (Unit {0})
  unauthorized s =
      stop
        (record s { w = write (json (fed_cm_error "unauthorized_client")) (write_header 401 s.w) })

  abbrev pub same_host : Bool → Action p (Unit {0})
  same_host true = pure tt
  same_host false = unauthorized

  unfoldable pub assert_identity : ℕ → Request → Identity → String → Action p (Unit {0})
  assert_identity now r ident challenge = do
    d ← gets (λ s. s.db)
    code_jwt ← or_fail 500 (build (assertion_claims r.host ident.id challenge now))
    signed_code ← or_fail 400 (sign_jwt p d code_jwt)
    respond (
        write (
          json (
            fed_cm_token signed_code
              ("https://" ⧺ r.host ⧺ "/.well-known/oauth-authorization-server"))))

  unfoldable pub choose_identity :
      (String → Result String) → ℕ → Request → String → Action p (Unit {0})
  choose_identity unmarshal now r host = do
    set_header "Access-Control-Allow-Origin" ("https://" ⧺ host)
    set_header "Access-Control-Allow-Credentials" "true"
    set_header "Content-Type" "application/json"
    fail_if (not (header_get "Sec-Fetch-Dest" r == "webidentity")) 401
        "Sec-Fetch-Dest != webidentity"
    d ← gets (λ s. s.db)
    let idents = ok_or [] (get_identities_fed_cm p now d r)
    challenge ← or_fail 400 (challenge_of unmarshal r)
    ident ←
        or_fail 403
          (or_err (find (λ i. i.id == form_get "account_id" r) idents) "No proper identity found")
    assert_identity now r ident challenge

  unfoldable pub id_assertion : (String → Result String) → ℕ → Request → Action p (Unit {0})
  id_assertion unmarshal now r = do
    parsed_origin ← or_fail 400 (url_parse (header_get "Origin" r))
    parsed_client_id ← or_fail 400 (url_parse (form_get "client_id" r))
    same_host (parsed_origin.host == parsed_client_id.host)
    choose_identity unmarshal now r parsed_client_id.host

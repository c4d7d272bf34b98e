-- ===== src/Oidc/Auth.antt =====
-- oidc.go, the handler of /auth: the request is kept in a signed cookie, and a page offers the
-- identities of the session, those of earlier logins at the client first.
pub mod Remembered
use Prim.Native.Nat.{Ordering}
use Prim.Native.String
use obligator.Base.{
  ℕ, ◌+◌, String, ◌⧺◌, Bool, true, false, not, ◌&&◌, Result, ok, err, ok_or, is_ok, or_say, Option,
  none, some, List, [], ◌∷◌, ◌==◌, if◌then◌else◌, keep, exists, lookup,
}
use obligator.Types.{Claim, str, time, Identity, Login, Logins, Request}
use obligator.Pages.{auth, AuthPage}
use obligator.Platform.{Platform, Database}
use obligator.Handler.{◌>>=◌, ◌>>◌, next}
use obligator.Http.{Action, form_get, or_fail, redirect, gets, show_page}
use obligator.Utils.Cookies.{get_identities, get_logins, set_jwt_cookie, set_return_uri_cookie}
use obligator.Utils.CommonPage.{new_common_data, blank, Overrides}
use obligator.Oidc.AuthRequest.{OAuth2AuthRequest, parse_auth_request}

-- Go's `>` on strings: the order of the bytes is that of the code points.
abbrev pub is_later : String → String → Bool
is_later s t = elim (String.compare s t) [
  | Ordering.gt ↦ true
  | Ordering.eq ↦ false
  | Ordering.lt ↦ false
]

abbrev pub insert_login : Login → List Login → List Login
insert_login login [] = login ∷ []
insert_login login (first ∷ rest) =
    let later = insert_login login rest in
    if is_later first.timestamp login.timestamp then first ∷ later else login ∷ first ∷ rest

-- sort.Slice, newest first. Logins of one time may stand in any order: here, as they were.
unfoldable pub by_recency : List Login → List Login
by_recency [] = []
by_recency (login ∷ rest) = insert_login login (by_recency rest)

abbrev pub has_login : List Login → Identity → Bool
has_login previous ident =
    exists (λ login. login.id == ident.id && login.provider_name == ident.provider_name) previous

unfoldable pub remaining_identities : List Login → List Identity → List Identity
remaining_identities previous idents = keep (λ ident. not (has_login previous ident)) idents

-- logins[ar.ClientId], or no logins.
unfoldable pub previous_logins : String → Result Logins → List Login
previous_logins client_id found =
    by_recency (elim (lookup client_id (ok_or [] found)) [ none ↦ [] | some l ↦ l ])

unfoldable pub flow_type : String → String
flow_type provider_id = if provider_id == "" then "normal" else "shortcut"

unfoldable pub auth_request_claims : OAuth2AuthRequest → Request → ℕ → List (String × Claim)
auth_request_claims ar r now =
    ("iat", time now)
    ∷ ("exp", time (now + 480))
    ∷ ("client_id", str ar.client_id)
    ∷ ("redirect_uri", str ar.redirect_uri)
    ∷ ("state", str ar.state)
    ∷ ("scope", str (form_get "scope" r))
    ∷ ("nonce", str (form_get "nonce" r))
    ∷ ("pkce_code_challenge", str (form_get "code_challenge" r))
    ∷ ("response_type", str ar.response_type)
    ∷ ("flow_type", str (flow_type (form_get "provider" r)))
    ∷ []

module _ (p : Platform) where
  open p use {db, build, url_parse}

  -- The provider was named, so no page is shown: /approve is where its login returns to.
  abbrev pub take_shortcut : Request → String → Action p (Unit {0})
  take_shortcut r provider_id = do
    set_return_uri_cookie p r.host "/approve"
    redirect ("/login-oauth2?oauth2_provider_id=" ⧺ provider_id) 303

  abbrev pub offer_identities : ℕ → Request → AuthPage → Action p (Unit {0})
  offer_identities now r offer = do
    d ← gets (λ s. s.db)
    let return_uri = r.path ⧺ "?" ⧺ r.raw_query
    set_return_uri_cookie p r.host return_uri
    show_page p 500
        (auth (new_common_data p (record blank { return_uri = return_uri }) now d r) offer)

  unfoldable pub auth_handler : Bool → String → ℕ → Request → Action p (Unit {0})
  auth_handler disable_qr_login prefix now r = do
    ar ← parse_auth_request p r
    d ← gets (λ s. s.db)
    let idents = ok_or [] (get_identities p now d r)
    let previous = previous_logins ar.client_id (get_logins p now d r)
    let provider_id = form_get "provider" r
    auth_request_jwt ← or_fail 500 (build (auth_request_claims ar r now))
    set_jwt_cookie p r.host auth_request_jwt (prefix ⧺ "auth_request") 480
    providers ← or_fail 500 (db.get_oauth2_providers d)
    parsed_client_id ← or_fail 400 (url_parse ar.client_id)
    let offer : AuthPage = record {
      client_id = parsed_client_id.host;
      remaining_identities = remaining_identities previous idents;
      previous_logins = previous;
      oauth2_providers = providers;
      can_email = is_ok (db.get_smtp_config d);
      disable_qr_login = disable_qr_login;
    }
    if provider_id == "" then offer_identities now r offer else take_shortcut r provider_id

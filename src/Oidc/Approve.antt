-- ===== src/Oidc/Approve.antt =====
-- oidc.go, the handler of /approve and handleWildcardEmail. `prefix` is the one that the handlers
-- were made with.
pub mod Consent
pub mod Wildcard
pub mod Made
pub mod Redeem
pub mod Flow
use obligator.Base.{
  ℕ, ◌+◌, String, ◌⧺◌, Bool, true, false, not, ◌&&◌, Result, ok, err, ok_or, or_err, Option, none,
  some, List, [], ◌∷◌, ◌++◌, ◌==◌, if◌then◌else◌, find, exists, split,
}
use obligator.Types.{Claim, str, time, audience, flag, Identity, Login, Request}
use obligator.Pages.{wildcard_email}
use obligator.Platform.{Platform}
use obligator.Handler.{◌>>=◌, ◌>>◌, next}
use obligator.Http.{
  set_random, Action, World, form_get, or_fail, or_fail_silent, redirect, pure, gets, set_cookie,
  crash, show_page,
}
use obligator.Jose.{sign_jwt, sign_and_encrypt_jwt}
use obligator.Utils.CookieDomain.{domain_to_uri}
use obligator.Utils.Cookies.{
  get_jwt_from_cookie, get_identities, claim_from_token, clear_cookie, text_of,
}
use obligator.Utils.LoginCookie.{add_login_to_cookie}
use obligator.Utils.CommonPage.{new_common_data, blank}

abbrev pub has_scope : String → String → Bool
has_scope word scope = exists (λ part. part == word) (split b' ' scope)

-- A name is given only with consent: the shortcut flow shows no page.
abbrev pub name_claims : Identity → String → String → List (String × Claim)
name_claims identity scope flow_type =
    if has_scope "profile" scope && not (flow_type == "shortcut") && not (identity.name == "")
    then ("name", str identity.name) ∷ []
    else []

abbrev pub email_claims : Identity → String → String → List (String × Claim)
email_claims identity expanded_id scope =
    if has_scope "email" scope
    then ("email", str expanded_id) ∷ ("email_verified", flag identity.email_verified) ∷ []
    else []

-- The builder's calls, in order.
unfoldable pub id_token_claims :
    Identity → String → String → String → ℕ → String → String → String → List (String × Claim)
id_token_claims identity expanded_id client_id uri now nonce scope flow_type =
    ("sub", str expanded_id)
    ∷ ("aud", audience (client_id ∷ []))
    ∷ ("iss", str uri)
    ∷ ("iat", time now)
    ∷ ("exp", time (now + 86400))
    ∷ ("nonce", str nonce)
    ∷ (email_claims identity expanded_id scope ++ name_claims identity scope flow_type)

abbrev pub code_claims : String → String → String → ℕ → List (String × Claim)
code_claims sub id_token challenge now =
    ("iat", time now)
    ∷ ("exp", time (now + 16))
    ∷ ("sub", str sub)
    ∷ ("id_token", str id_token)
    ∷ ("pkce_code_challenge", str challenge)
    ∷ []

abbrev pub code_uri : String → String → String → String → String → String
code_uri redirect_uri client_id code state scope =
    redirect_uri ⧺ "?client_id=" ⧺ client_id ⧺ "&redirect_uri=" ⧺ redirect_uri ⧺ "&code=" ⧺ code
    ⧺ "&state=" ⧺ state ⧺ "&scope=" ⧺ scope

abbrev pub auth_request_cookie : String → String
auth_request_cookie prefix = prefix ⧺ "auth_request"

abbrev pub new_login : Identity → Login
new_login identity = record {
  id_type = "email";
  id = identity.id;
  provider_name = identity.provider_name;
  timestamp = "";
}

module _ (p : Platform) where
  open p use {Db, Token, get_claim, build, Source}

  -- The two parts round the only '*' of an e-mail address.
  abbrev ask_wildcard : ℕ → Request → Identity → String → List String → Action p String
  ask_wildcard now r identity wildcard (before ∷ after ∷ []) = do
    d ← gets (λ s. s.db)
    show_page p 500 (wildcard_email (new_common_data p blank now d r) identity.id before after)
    pure wildcard
  ask_wildcard now r identity wildcard _ = pure wildcard

  unfoldable pub handle_wildcard_email : ℕ → Request → Identity → Action p String
  handle_wildcard_email now r identity =
      let wildcard = form_get "email-wildcard" r in
      if identity.id_type == "email" && wildcard == ""
      then ask_wildcard now r identity wildcard (split b'*' identity.id)
      else pure wildcard

  abbrev put_between : String → List String → Action p String
  put_between wildcard (before ∷ after ∷ _) = pure (before ⧺ wildcard ⧺ after)
  put_between wildcard _ = crash

  -- wildcardParts[1] panics when the address has no '*'.
  unfoldable pub expand_id : String → String → Action p String
  expand_id wildcard id = if wildcard == "" then pure id else put_between wildcard (split b'*' id)

  -- The login is recorded in the login cookie.
  unfoldable pub record_login : ℕ → Request → Token → Identity → Action p (Unit {0})
  record_login now r auth_req identity = do
    s ← gets (λ s. s)
    cookie ← or_fail_silent 500 (
        add_login_to_cookie p now s.db r (claim_from_token p "client_id" auth_req)
          (new_login identity) s.random)
    set_random cookie.1
    set_cookie cookie.0

  -- From the expanded address to the signed code.
  unfoldable pub make_code : ℕ → Request → Token → Identity → String → Action p String
  make_code now r auth_req identity expanded_id = do
    d ← gets (λ s. s.db)
    let of_request = λ (name : String). claim_from_token p name auth_req
    id_token ← or_fail_silent 500 (
        build (
          id_token_claims identity expanded_id (of_request "client_id") (domain_to_uri r.host) now
            (of_request "nonce") (of_request "scope") (of_request "flow_type")))
    encrypted ← or_fail_silent 500 (sign_and_encrypt_jwt p d id_token)
    code ← or_fail 500 (
        build (
          code_claims (text_of (get_claim "email" id_token)) encrypted
            (of_request "pkce_code_challenge") now))
    or_fail 400 (sign_jwt p d code)

  unfoldable pub send_code : Token → String → Action p (Unit {0})
  send_code auth_req signed_code =
      let of_request = λ (name : String). claim_from_token p name auth_req in
      if of_request "response_type" == "none"
      then redirect (of_request "redirect_uri") 303
      else redirect
          (code_uri (of_request "redirect_uri") (of_request "client_id") signed_code
            (of_request "state") (of_request "scope"))
          303

  unfoldable pub approve_identity : String → ℕ → Request → Token → Identity → Action p (Unit {0})
  approve_identity prefix now r auth_req identity = do
    wildcard ← handle_wildcard_email now r identity
    record_login now r auth_req identity
    expanded_id ← expand_id wildcard identity.id
    clear_cookie p r.host (auth_request_cookie prefix)
    signed_code ← make_code now r auth_req identity expanded_id
    send_code auth_req signed_code

  unfoldable pub approve : String → ℕ → Request → Action p (Unit {0})
  approve prefix now r = do
    d ← gets (λ s. s.db)
    auth_req ← or_fail 401 (get_jwt_from_cookie p now d (auth_request_cookie prefix) r)
    identity ← or_fail 403 (
        or_err
          (find (λ ident. ident.id == form_get "identity_id" r)
            (ok_or [] (get_identities p now d r)))
          "You don't have permissions for this identity")
    approve_identity prefix now r auth_req identity

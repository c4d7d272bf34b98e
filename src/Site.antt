-- ===== src/Site.antt =====
-- handler.go: the pages of the server itself, the validation for other proxies, login and logout.
pub mod Return
use obligator.Base.{
  ℕ, String, ◌⧺◌, Bool, true, false, Result, ok, err, is_ok, Option, none, some, List, [], ◌∷◌,
  ◌==◌, if◌then◌else◌,
}
use obligator.Types.{Request}
use obligator.Pages.{plain, login, ip, LoginPage, text}
use obligator.Platform.{Platform, Database}
use obligator.Handler.{◌>>=◌, ◌>>◌, next}
use obligator.Http.{
  Action, World, form_get, or_fail, redirect, gets, pure, set_header, respond, write_header, write,
  crash, show_page,
}
use obligator.Utils.Hash.{hash_with}
use obligator.Utils.CookieDomain.{domain_to_uri}
use obligator.Utils.Cookies.{get_remote_ip, set_return_uri_cookie, delete_login_key_cookie}
use obligator.Utils.CommonPage.{new_common_data, blank, Overrides}
use obligator.Server.Validate.{validate, Validation, Checked, verdict, panicked}
use obligator.Server.Mux.{id_text, id_type_text}

abbrev pub auth_url : Request → String
auth_url r =
    domain_to_uri (form_get "auth_server" r)
    ⧺ "/auth?client_id="
    ⧺ form_get "redirect_uri" r
    ⧺ "&redirect_uri="
    ⧺ form_get "redirect_uri" r
    ⧺ "&response_type=code&state=&scope="

abbrev pub own_page : Bool → String
own_page fed_cm = if fed_cm then "/login-fedcm-auto" else "/login"

module _ (p : Platform) where
  open p use {Db, db, url_parse}

  unfoldable pub ip_handler : Bool → ℕ → Request → Action p (Unit {0})
  ip_handler behind_proxy now r = do
    remote_ip ← or_fail 500 (get_remote_ip p r behind_proxy)
    d ← gets (λ s. s.db)
    show_page p 500 (ip (new_common_data p blank now d r) remote_ip)

  abbrev answer : Request → Checked → Action p (Unit {0})
  answer r panicked = crash
  answer r (verdict (err m)) = redirect (auth_url r) 307
  answer r (verdict (ok v)) = do
    set_header "Remote-Id-Type" (id_type_text v)
    set_header "Remote-Id" (id_text v)

  unfoldable pub validate_handler : ℕ → Request → Action p (Unit {0})
  validate_handler now r = do d ← gets (λ s. s.db); answer r (validate p now d r)

  -- Another page than the server's own has to be on a domain in the database.
  abbrev known_domain : String → Action p String
  known_domain return_uri = do
    parsed_url ← or_fail 400 (url_parse return_uri)
    d ← gets (λ s. s.db)
    known ← or_fail 403 (db.get_domain parsed_url.host d)
    pure return_uri

  unfoldable pub return_page : Bool → Request → Action p String
  return_page fed_cm r =
      if form_get "return_uri" r == ""
      then pure (own_page fed_cm)
      else known_domain (form_get "return_uri" r)

  -- The page, and the cookie that says where the login returns to.
  unfoldable pub offer_login : Bool → ℕ → Request → LoginPage → String → Action p (Unit {0})
  offer_login disable_qr_login now r offer return_uri = do
    set_return_uri_cookie p r.host return_uri
    d ← gets (λ s. s.db)
    show_page p 500
        (login (new_common_data p (record blank { return_uri = return_uri }) now d r) offer)

  unfoldable pub login_handler : Bool → Bool → ℕ → Request → Action p (Unit {0})
  login_handler disable_qr_login fed_cm now r = do
    d ← gets (λ s. s.db)
    providers ← or_fail 500 (db.get_oauth2_providers d)
    return_uri ← return_page fed_cm r
    offer_login disable_qr_login now r
        (record {
          can_email = is_ok (db.get_smtp_config d);
          oauth2_providers = providers;
          fed_cm = fed_cm;
          disable_qr_login = disable_qr_login;
        })
        return_uri

  abbrev note_error : Result (Unit {0}) → Action p (Unit {0})
  note_error (ok done) = pure tt
  note_error (err m) = respond (write_header 500)

  -- After an error the handler goes on.
  unfoldable pub logout_handler : Request → Action p (Unit {0})
  logout_handler r = do
    deleted ← delete_login_key_cookie p r.host
    note_error deleted
    set_header "Set-Login" "logged-out"
    redirect (form_get "prev_page" r) 303

  unfoldable pub no_account : ℕ → Request → Action p (Unit {0})
  no_account now r = do
    d ← gets (λ s. s.db)
    show_page p 500 (plain "no-account.html" (new_common_data p blank now d r))

  -- A user's page, with the address of IndieAuth's document.
  unfoldable pub indie_auth_user : ℕ → Request → Action p (Unit {0})
  indie_auth_user now r = do
    set_header "Link" (
        "<"
        ⧺ domain_to_uri r.host
        ⧺ "/.well-known/oauth-authorization-server"
        ⧺ ">; rel=\"indieauth-metadata\"")
    d ← gets (λ s. s.db)
    show_page p 500 (plain "user.html" (new_common_data p blank now d r))

  -- `files` is the file server on the directory static.
  module _ (files : Request → Action p (Unit {0})) where
    -- A domain that a user has added shows that user's page.
    unfoldable pub root_handler : ℕ → Request → Action p (Unit {0})
    root_handler now r = do
      d ← gets (λ s. s.db)
      elim (db.get_domain r.host d) [
        | err m ↦ files r
        | ok domain ↦
            if domain.hashed_owner_id == hash_with p.sha256 p.hex "root"
            then files r
            else indie_auth_user now r
      ]

    unfoldable pub logo_handler : Option String → Request → Action p (Unit {0})
    logo_handler none r = files r
    logo_handler (some logo_png) r = do
      set_header "Content-Type" "image/png"
      set_header "Cache-Control" "max-age=86400"
      respond (write (text logo_png))

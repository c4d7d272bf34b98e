-- ===== src/Email/Magic.antt =====
-- add_identity_email.go: the handlers behind the link. A link opens a page that asks for consent,
-- and the page's form completes the login.
use obligator.Base.{
  ℕ, String, Bool, true, false, not, Result, ok, err, ok_or, or_err, Option, none, some, ◌==◌,
  lookup, delete,
}
use obligator.Types.{Request}
use obligator.Pages.{email_magic}
use obligator.Platform.{Platform}
use obligator.Handler.{◌>>=◌, ◌>>◌, next}
use obligator.Http.{
  set_random, Action, form_get, cookie_value, fail_if, or_fail, or_fail_silent, redirect, gets,
  show_page,
}
use obligator.Jose.{parse_jwt}
use obligator.Cluster.{Cluster, forward_if}
use obligator.Utils.Cookies.{
  get_remote_ip, get_login_cookie, get_return_uri_cookie, delete_return_uri_cookie,
  claim_from_token, set_login_cookie,
}
use obligator.Utils.LoginCookie.{add_ident_to_cookie}
use obligator.Utils.CommonPage.{new_common_data, blank}
use obligator.Email.{email_identity}
use Prim.Native.String

module _ (p : Platform) where
  open p use {Db, Key, jwe_decrypt}

  -- The link was opened in the browser that asked for it: its cookie holds the link's key.
  unfoldable pub different_browsers : ℕ → Db → Key → String → String → Request → Result Bool
  different_browsers now d priv_key cookie_name key r = elim (cookie_value cookie_name r) [
    | err m ↦ ok true
    | ok encrypted_jwt ↦ elim (jwe_decrypt priv_key encrypted_jwt) [
      | err m ↦ err m
      | ok decrypted_jwt ↦ elim (parse_jwt p now d decrypted_jwt) [
        | err m ↦ err m
        | ok parsed_jwt ↦ ok (not (key == claim_from_token p "magic_link_key" parsed_jwt))
      ]
    ]
  ]

  -- geoDb.Get_all, where there is such a database; the places that it finds are not modelled.
  unfoldable pub locate : Option (String → Result (Unit {0})) → String → String → Result Bool
  locate none og_ip magic_ip = ok false
  locate (some get_all) og_ip magic_ip = elim (get_all og_ip) [
    | err m ↦ err m
    | ok og_geo ↦ elim (get_all magic_ip) [ err m ↦ err m | ok magic_geo ↦ ok true ]
  ]

  abbrev pub delete_pending : String → Action p (Unit {0})
  delete_pending key s = next tt (record s { pending_logins = delete key s.pending_logins })

  module _ (prefix : String) (behind_proxy : Bool) (geo_db : Option (String → Result (Unit {0})))
      (cluster : Cluster) (priv_key : Key) where
    unfoldable pub magic : ℕ → Request → Action p (Unit {0})
    magic now r = do
      let og_instance_id = form_get "instance_id" r
      forward_if p (not (og_instance_id == cluster.local_id)) cluster og_instance_id
      let key = form_get "key" r
      s ← gets (λ s. s)
      pending ← or_fail 500 (or_err (lookup key s.pending_logins) "Invalid magic link")
      remote_ip ← or_fail 500 (get_remote_ip p r behind_proxy)
      use_geo_db ← or_fail 500 (locate geo_db pending.remote_ip remote_ip)
      elsewhere ←
          or_fail 500
            (different_browsers now s.db priv_key (String.◌++◌ prefix "email_login") key r)
      show_page p 400 (
          email_magic (new_common_data p blank now s.db r) (record {
            key = key;
            different_ips = not (pending.remote_ip == remote_ip);
            different_browsers = elsewhere;
            use_geo_db = use_geo_db;
            og_ip = pending.remote_ip;
            magic_ip = remote_ip;
            instance_id = og_instance_id;
          }))

  -- The identity of the link's address goes into the login cookie.
  unfoldable pub log_in : ℕ → Request → String → Action p (Unit {0})
  log_in now r email = do
    s ← gets (λ s. s)
    let cookie_value = ok_or "" (get_login_cookie p s.db r)
    cookie ← or_fail_silent 500 (
        add_ident_to_cookie p now r.host s.db cookie_value
          (email_identity email (form_get "name" r)) s.random)
    set_random cookie.1
    set_login_cookie p cookie.0

  unfoldable pub go_back : Request → Action p (Unit {0})
  go_back r = do
    d ← gets (λ s. s.db)
    return_uri ← or_fail_silent 500 (get_return_uri_cookie p d r)
    delete_return_uri_cookie p r.host
    redirect return_uri 303

  -- The link is deleted before the login: it works once. Its time limit is the clean-up's.
  unfoldable pub complete_email_login : Cluster → ℕ → Request → Action p (Unit {0})
  complete_email_login cluster now r = do
    fail_if (not (r.method == "POST")) 405 "Invalid method"
    let magic_link_key = form_get "magic_link_key" r
    let og_instance_id = form_get "instance_id" r
    forward_if p (not (og_instance_id == cluster.local_id)) cluster og_instance_id
    s ← gets (λ s. s)
    pending ← or_fail 500 (or_err (lookup magic_link_key s.pending_logins) "Not a valid session")
    delete_pending magic_link_key
    log_in now r pending.email
    go_back r

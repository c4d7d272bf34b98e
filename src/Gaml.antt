-- ===== src/Gaml.antt =====
-- add_identity_gaml.go: login with a web page, on which the user puts a code. `get` is what an HTTP
-- GET of a URL answers: a status and a body, which may fail to be read.
pub mod Fresh
pub mod Proof
use obligator.Base.{
  ℕ, zero, suc, ◌+◌, String, ◌⧺◌, Bool, true, false, not, Result, ok, err, ok_or, Option, none,
  some, List, [], ◌∷◌, ◌==◌, if◌then◌else◌, lookup, insert, delete, leb, ◌&&◌,
}
use obligator.Types.{Claim, str, time, Identity, Request}
use obligator.Pages.{plain, gaml, Page, text, page}
use obligator.Platform.{Platform}
use obligator.Handler.{◌>>=◌, ◌>>◌, next}
use obligator.Http.{
  set_random, Action, World, form_get, cookie_value, text_or_blank, fail, fail_if, or_fail,
  or_fail_silent, redirect, gets, pure, respond, write, set_cookie, show_page,
}
use obligator.Jose.{parse_jwt}
use obligator.Cluster.{Cluster, forward_if}
use obligator.Utils.Hash.{hash_with}
use obligator.Utils.Random.{gen_random_code}
use obligator.Utils.CookieDomain.{domain_to_uri}
use obligator.Utils.Cookies.{
  get_jwt_from_cookie, get_login_cookie, set_jwt_cookie, claim_from_token,
}
use obligator.Utils.LoginCookie.{add_ident_to_cookie}
use obligator.Utils.CommonPage.{new_common_data, blank}

abbrev pub Get : Type 0
Get = String → Result (ℕ × Result String)

-- resp.StatusCode != 200
abbrev pub body_of : Result (ℕ × Result String) → Result String
body_of (err m) = err m
body_of (ok (status, body)) =
    if leb status 200 && leb 200 status then body else err "Invalid response status"

unfoldable pub retrieve_code : Get → String → Result String
retrieve_code get url_id = body_of (get ("https://" ⧺ url_id ⧺ "/gaml_code.txt"))

unfoldable pub gaml_claims : String → String → ℕ → List (String × Claim)
gaml_claims url_id local_id now =
    ("iat", time now)
    ∷ ("exp", time (now + 120))
    ∷ ("url", str url_id)
    ∷ ("instance_id", str local_id)
    ∷ []

abbrev pub gaml_identity : String → Identity
gaml_identity url_id = record {
  id_type = "url";
  id = url_id;
  provider_name = "URL";
  name = "";
  email = "";
  email_verified = false;
}

module _ (p : Platform) where
  open p use {Db, Token, Source, build, url_parse, execute_template, sha256, hex}

  -- The rounds left: the source gives up when i, from 0, is over 1024.
  unfoldable pub new_code : ℕ → String → Source → Result (String × Source)
  new_code zero old_code src = err "Failed to generate a new code"
  new_code (suc left) old_code src = elim (gen_random_code p src) [
    | err m ↦ err m
    | ok drawn ↦
        let again = new_code left old_code drawn.1 in
        if drawn.0 == old_code then again else ok drawn
  ]

  -- The code is pending once its page was written.
  abbrev pub show_code : Page → String → String → Action p (Unit {0})
  show_code g key code s = elim (execute_template g) [
    | err m ↦ fail 500 m s
    | ok done ↦
        next tt
          (record s { w = write (page g) s.w; pending_codes = insert key code s.pending_codes })
  ]

  unfoldable pub login_gaml : ℕ → Request → Action p (Unit {0})
  login_gaml now r = do
    d ← gets (λ s. s.db)
    show_page p 500 (plain "login-gaml.html" (new_common_data p blank now d r))

  unfoldable pub gaml_code : Get → Cluster → String → ℕ → Request → Action p (Unit {0})
  gaml_code get cluster prefix now r = do
    let url_param = form_get "url" r
    fail_if (url_param == "") 400 "url param missing"
    parsed_url ← or_fail 400 (url_parse url_param)
    let url_id = parsed_url.host ⧺ parsed_url.path
    old_code ← or_fail 500 (retrieve_code get url_id)
    src ← gets (λ s. s.random)
    drawn ← or_fail 500 (new_code 1025 old_code src)
    set_random drawn.1
    req_jwt ← or_fail 500 (build (gaml_claims url_id cluster.local_id now))
    set_jwt_cookie p r.host req_jwt (prefix ⧺ "_gaml_login_state") 120
    d ← gets (λ s. s.db)
    show_code (gaml (new_common_data p blank now d r) drawn.0) (hash_with sha256 hex url_id) drawn.0

  -- A missing code reads as "".
  abbrev pub pending_code : String → List (String × String) → String
  pending_code key m = text_or_blank (lookup key m)

  abbrev pub delete_code : String → Action p (Unit {0})
  delete_code key s = next tt (record s { pending_codes = delete key s.pending_codes })

  -- The page's identity goes into the login cookie.
  unfoldable pub log_in_page : String → ℕ → Request → String → Action p (Unit {0})
  log_in_page prefix now r url_id = do
    s ← gets (λ s. s)
    request ← or_fail 500 (get_jwt_from_cookie p now s.db (prefix ⧺ "auth_request") r)
    cookie ← or_fail_silent 500 (
        add_ident_to_cookie p now r.host s.db (ok_or "" (get_login_cookie p s.db r))
          (gaml_identity url_id) s.random)
    set_random cookie.1
    set_cookie cookie.0
    redirect (domain_to_uri r.host ⧺ "/auth?" ⧺ claim_from_token p "raw_query" request) 303

  -- The code on the page is compared with the pending one, which is used up.
  unfoldable pub check_page : Get → String → ℕ → Request → String → Action p (Unit {0})
  check_page get prefix now r url_id = do
    code ← or_fail 500 (retrieve_code get url_id)
    let hashed_url = hash_with sha256 hex url_id
    s ← gets (λ s. s)
    delete_code hashed_url
    fail_if (not (code == pending_code hashed_url s.pending_codes)) 401 "Invalid code"
    log_in_page prefix now r url_id

  unfoldable pub complete_gaml_login : Get → Cluster → String → ℕ → Request → Action p (Unit {0})
  complete_gaml_login get cluster prefix now r = do
    state ← or_fail 500 (cookie_value (prefix ⧺ "_gaml_login_state") r)
    d ← gets (λ s. s.db)
    parsed ← or_fail 500 (parse_jwt p now d state)
    let og_instance_id = claim_from_token p "instance_id" parsed
    forward_if p (not (og_instance_id == cluster.local_id)) cluster og_instance_id
    check_page get prefix now r (claim_from_token p "url" parsed)

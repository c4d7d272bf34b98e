-- ===== src/Qr.antt =====
-- qr.go: identities and logins of one browser are shared with another, which shows a QR code.
-- Where the source ranges over a Go map, whose order is not fixed, the model takes the list's.
pub mod Selection
pub mod Forgets
pub mod Shared
use obligator.Base.{
  ℕ, ◌+◌, String, ◌⧺◌, Bool, true, false, not, Result, ok, err, ok_or, or_err, Option, none, some,
  List, [], ◌∷◌, ◌++◌, ◌==◌, if◌then◌else◌, keep, lookup, insert, delete, ltb,
}
use obligator.Types.{Identity, Login, Logins, Request, PendingShare, Cookie, session, default_mode}
use obligator.Pages.{plain, qr, login_qr}
use obligator.Platform.{Platform}
use obligator.Handler.{◌>>=◌, ◌>>◌, next}
use obligator.Http.{
  set_random, Action, World, form_get, first_or_blank, or_fail, or_fail_silent, gets, pure, halt,
  redirect, respond, set_cookie, write_header, show_page,
}
use obligator.Cluster.{Cluster, redirect_or_forward}
use obligator.Utils.Random.{gen_random_key}
use obligator.Utils.CookieDomain.{domain_to_uri}
use obligator.Utils.Cookies.{
  get_identities, get_logins, get_login_cookie, login_key_name, get_return_uri_cookie,
  delete_return_uri_cookie,
}
use obligator.Utils.LoginCookie.{add_ident_to_cookie, add_login_to_cookie}
use obligator.Utils.CommonPage.{new_common_data, blank}

abbrev pub share_timeout : ℕ
share_timeout = 120

abbrev pub share_has_expired : ℕ → PendingShare → Bool
share_has_expired now share = ltb share.expires_at now

-- A round of the clean-up loop over a copy of the map.
unfoldable pub clean_shares :
    ℕ → List (String × PendingShare) → List (String × PendingShare) → List (String × PendingShare)
clean_shares now [] m = m
clean_shares now ((key, share) ∷ copy) m =
    clean_shares now copy (if share_has_expired now share then delete key m else m)

abbrev pub checkbox : String → String
checkbox id = "checkbox_" ⧺ id

-- value[0] == "on"
abbrev pub is_on : List String → Bool
is_on values = first_or_blank (some values) == "on"

-- The key begins with checkbox_ and goes on with the id: it is checkbox_ and the id.
abbrev pub ticked_by : String → List String → List Identity → List Identity
ticked_by key values idents =
    if is_on values then keep (λ ident. key == checkbox ident.id) idents else []

unfoldable pub selected : List (String × List String) → List Identity → List Identity
selected [] idents = []
selected ((key, values) ∷ form) idents = ticked_by key values idents ++ selected form idents

abbrev pub logins_at : Option (List Login) → List Login
logins_at none = []
logins_at (some l) = l

-- append creates the entry of a client only for a login.
abbrev pub append_logins : String → List Login → Logins → Logins
append_logins client_id [] acc = acc
append_logins client_id (login ∷ more) acc =
    insert client_id (logins_at (lookup client_id acc) ++ login ∷ more) acc

unfoldable pub copy_logins_of : String → Logins → Logins → Logins
copy_logins_of id [] acc = acc
copy_logins_of id ((client_id, client_logins) ∷ all) acc =
    copy_logins_of id all
      (append_logins client_id (keep (λ login. login.id == id) client_logins) acc)

unfoldable pub copy_logins : List Identity → Logins → Logins → Logins
copy_logins [] all acc = acc
copy_logins (ident ∷ idents) all acc = copy_logins idents all (copy_logins_of ident.id all acc)

unfoldable pub shared_logins : Bool → List Identity → Result Logins → Logins
shared_logins true idents (ok all) = copy_logins idents all []
shared_logins _ idents _ = []

-- What r.Cookie gives: a name and a value.
abbrev pub bare_cookie : String → String → Cookie
bare_cookie name value = record {
  domain = "";
  name = name;
  value = value;
  path = "";
  secure = false;
  http_only = false;
  max_age = session;
  same_site = default_mode;
}

module _ (p : Platform) where
  open p use {Db, Source}

  -- qrcode.Encode and its base64, for the URL of the code.
  unfoldable pub login_qr_handler :
      (String → Result String) → Cluster → ℕ → Request → Action p (Unit {0})
  login_qr_handler encode cluster now r = do
    src ← gets (λ s. s.random)
    drawn ← or_fail 500 (gen_random_key p src)
    set_random drawn.1
    code ←
        or_fail 500 (
          encode (domain_to_uri r.host ⧺ "/qr?key=" ⧺ drawn.0 ⧺ "&instance_id=" ⧺ cluster.local_id))
    d ← gets (λ s. s.db)
    show_page p 400
        (login_qr (new_common_data p blank now d r) drawn.0 ("data:image/png;base64," ⧺ code) "")

  unfoldable pub qr_handler : ℕ → Request → Action p (Unit {0})
  qr_handler now r = do
    d ← gets (λ s. s.db)
    show_page p 400
        (qr (new_common_data p blank now d r) (form_get "key" r) (form_get "instance_id" r) "")

  abbrev pub share_of : ℕ → Request → List Identity → Result Logins → PendingShare
  share_of now r idents all = record {
    identities = selected r.form idents;
    logins =
        shared_logins (form_get "checkbox_share_logins" r == "on") (selected r.form idents) all;
    expires_at = now + share_timeout;
  }

  abbrev pub add_share : String → PendingShare → Action p (Unit {0})
  add_share key share s = next tt (record s { pending_shares = insert key share s.pending_shares })

  abbrev nothing_selected : ℕ → Request → Action p (Unit {0})
  nothing_selected now r = do
    respond (write_header 400)
    d ← gets (λ s. s.db)
    show_page p 400 (
        qr (new_common_data p blank now d r) (form_get "qr_key" r) (form_get "instance_id" r)
          "You must select at least one identity")

  abbrev store_share : ℕ → Request → PendingShare → List Identity → Action p (Unit {0})
  store_share now r share [] = nothing_selected now r
  store_share now r share (ident ∷ more) = do
    add_share (form_get "qr_key" r) share
    d ← gets (λ s. s.db)
    show_page p 400 (plain "send-success.html" (new_common_data p blank now d r))

  unfoldable pub send : Cluster → ℕ → Request → Action p (Unit {0})
  send cluster now r =
      if form_get "instance_id" r == cluster.local_id
      then (do
        d ← gets (λ s. s.db)
        let share = share_of now r (ok_or [] (get_identities p now d r)) (get_logins p now d r)
        store_share now r share share.identities)
      else (redirect_or_forward p cluster (form_get "instance_id" r) >> halt)

  -- Each identity goes into the cookie that the one before gave.
  unfoldable pub receive_identities :
      ℕ → Request → Db → List Identity → Cookie → Source → Result (Cookie × Source)
  receive_identities now r d [] cookie src = ok (cookie, src)
  receive_identities now r d (ident ∷ idents) cookie src =
      elim (add_ident_to_cookie p now r.host d cookie.value ident src) [
        | err m ↦ err m
        | ok added ↦ receive_identities now r d idents added.0 added.1
      ]

  -- Each login goes into the cookie of the request, which replaces the one before.
  unfoldable pub receive_client_logins :
      ℕ → Request → Db → String → List Login → Cookie → Source → Result (Cookie × Source)
  receive_client_logins now r d client_id [] cookie src = ok (cookie, src)
  receive_client_logins now r d client_id (login ∷ more) cookie src =
      elim (add_login_to_cookie p now d r client_id login src) [
        | err m ↦ err m
        | ok added ↦ receive_client_logins now r d client_id more added.0 added.1
      ]

  unfoldable pub receive_logins :
      ℕ → Request → Db → Logins → Cookie → Source → Result (Cookie × Source)
  receive_logins now r d [] cookie src = ok (cookie, src)
  receive_logins now r d ((client_id, logins) ∷ all) cookie src =
      elim (receive_client_logins now r d client_id logins cookie src) [
        | err m ↦ err m
        | ok added ↦ receive_logins now r d all added.0 added.1
      ]

  abbrev pub current_cookie : Result String → Result String → Cookie
  current_cookie (ok name) (ok value) = bare_cookie name value
  current_cookie _ _ = bare_cookie "" ""

  abbrev no_share : (String → Result String) → ℕ → Request → Action p (Unit {0})
  no_share encode now r = do
    respond (write_header 400)
    code ← or_fail 500 (encode (domain_to_uri r.host ⧺ "/qr/" ⧺ form_get "qr_key" r))
    d ← gets (λ s. s.db)
    show_page p 400 (
        login_qr (new_common_data p blank now d r) (form_get "qr_key" r)
          ("data:image/png;base64," ⧺ code)
          "No share found. Make sure you've scanned the QR code on the sharing device and confirmed")

  -- The share stays in the map.
  unfoldable pub take_share : ℕ → Request → PendingShare → Action p (Unit {0})
  take_share now r share = do
    s ← gets (λ s. s)
    let current = current_cookie (login_key_name p s.db) (get_login_cookie p s.db r)
    received ← or_fail_silent 500 (receive_identities now r s.db share.identities current s.random)
    set_random received.1
    complete ← or_fail_silent 500 (receive_logins now r s.db share.logins received.0 received.1)
    set_random complete.1
    set_cookie complete.0
    return_uri ← or_fail_silent 500 (get_return_uri_cookie p s.db r)
    delete_return_uri_cookie p r.host
    redirect return_uri 303

  unfoldable pub receive : (String → Result String) → ℕ → Request → Action p (Unit {0})
  receive encode now r s = elim (lookup (form_get "qr_key" r) s.pending_shares) [
    | none ↦ no_share encode now r s
    | some share ↦ take_share now r share s
  ]

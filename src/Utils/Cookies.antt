-- ===== src/Utils/Cookies.antt =====
-- utils.go: reading and writing the cookies that carry a session.
use obligator.Base.{
  ℕ, String, ◌⧺◌, Result, ok, err, ◌>>=◌, or_say, or_err, ◌==◌, Option, some, List, [], ◌∷◌, true,
  false, exists, Bool, split, if◌then◌else◌,
}
use obligator.Types.{
  Claim, str, identities, logins, Identity, Logins, Cookie, Request, MaxAge, session, seconds,
  expired, lax_mode, default_mode, User,
}
use obligator.Pages.{text}
use obligator.Platform.{Platform}
use obligator.Handler.{next, ◌>>◌}
use obligator.Http.{
  Action, cookie_value, header_get, add_cookie, write, write_header, set_header, set_cookie,
}
use obligator.Jose.{parse_jwt, sign_jwt}
use obligator.Utils.CookieDomain.{build_cookie_domain}

abbrev pub cross_site_detector : String
cross_site_detector = "obligator_not_cross_site"

pub valid_user : String → List User → Bool
valid_user id users = exists (λ user. id == user.id) users

-- parsed.Get(name) as a string; any other value, or none, is "".
abbrev pub text_of : Option Claim → String
text_of (some (str s)) = s
text_of _ = ""

-- parsed.Get("identities").([]*Identity); another type leaves the list empty.
abbrev pub identities_of : Claim → List Identity
identities_of (identities l) = l
identities_of _ = []

abbrev pub logins_of : Claim → Result Logins
logins_of (logins m) = ok m
logins_of _ = err "getLogins: Failed to assert type"

module _ (p : Platform) where
  open p use {Db, db, Token, get_claim, split_host_port}

  unfoldable pub claim_from_token : String → Token → String
  claim_from_token claim token = text_of (get_claim claim token)

  unfoldable pub login_key_name : Db → Result String
  login_key_name d = db.get_prefix d >>= λ prefix. ok (prefix ⧺ "login_key")

  -- The second cookie is SameSite=Lax, so a cross-site request lacks it.
  unfoldable pub get_login_cookie : Db → Request → Result String
  get_login_cookie d r = do
    name ← login_key_name d
    login_key ← cookie_value name r
    detector ← cookie_value cross_site_detector r
    ok login_key

  unfoldable pub get_identities_common : ℕ → Db → String → Result (List Identity)
  get_identities_common now d jwt_str = if jwt_str == "" then err "Blank jwt" else do
    parsed ← or_say (parse_jwt p now d jwt_str) "Invalid jwt"
    claim ← or_err (get_claim "identities" parsed) "No identities"
    ok (identities_of claim)

  unfoldable pub get_identities : ℕ → Db → Request → Result (List Identity)
  get_identities now d r = get_login_cookie d r >>= get_identities_common now d

  unfoldable pub get_identities_fed_cm : ℕ → Db → Request → Result (List Identity)
  get_identities_fed_cm now d r = do
    name ← login_key_name d
    login_key ← cookie_value name r
    get_identities_common now d login_key

  unfoldable pub get_logins : ℕ → Db → Request → Result Logins
  get_logins now d r = do
    jwt_str ← get_login_cookie d r
    if jwt_str == "" then err "Blank jwt" else do
      parsed ← or_say (parse_jwt p now d jwt_str) "Invalid jwt"
      claim ← or_err (get_claim "logins" parsed) "No logins"
      logins_of claim

  unfoldable pub get_return_uri_cookie : Db → Request → Result String
  get_return_uri_cookie d r = do
    prefix ← db.get_prefix d
    or_say (cookie_value (prefix ⧺ "return_uri") r) "Missing return URI cookie"

  unfoldable pub get_jwt_from_cookie : ℕ → Db → String → Request → Result Token
  get_jwt_from_cookie now d cookie_key r = cookie_value cookie_key r >>= parse_jwt p now d

  -- parts[0] of the header, if there is one.
  abbrev pub first_part : String → String → String
  first_part d s = elim (split b',' s) [ [] ↦ d | part ∷ _ ↦ part ]

  unfoldable pub get_remote_ip : Request → Bool → Result String
  get_remote_ip r behind_proxy = do
    remote_ip ← split_host_port r.remote_addr
    let xff_header = header_get "X-Forwarded-For" r
    ok (
        if behind_proxy
        then (if xff_header == "" then remote_ip else first_part remote_ip xff_header)
        else remote_ip)

  -- The cookie of setJwtCookie and of setReturnUriCookie.
  abbrev pub lax_cookie : String → String → String → MaxAge → Cookie
  lax_cookie domain name value age = record {
    domain = domain;
    name = name;
    value = value;
    path = "/";
    secure = true;
    http_only = true;
    max_age = age;
    same_site = lax_mode;
  }

  -- The errors are written to the client, and the handler goes on.
  unfoldable pub set_jwt_cookie : String → Token → String → ℕ → Action p (Unit {0})
  set_jwt_cookie domain jot cookie_key max_age s = elim (sign_jwt p s.db jot) [
    | err m ↦ next tt (record s { w = write (text m) (write_header 400 s.w) })
    | ok signed ↦ elim (build_cookie_domain domain) [
      | err m ↦ next tt (record s { w = write (text m) (write_header 500 s.w) })
      | ok cookie_domain ↦ next tt (record s {
        w = add_cookie (lax_cookie cookie_domain cookie_key signed (seconds max_age)) s.w;
      })
    ]
  ]

  abbrev pub deleted_cookie : String → String → Cookie
  deleted_cookie domain name = record {
    domain = domain;
    name = name;
    value = "";
    path = "/";
    secure = false;
    http_only = false;
    max_age = expired;
    same_site = default_mode;
  }

  unfoldable pub clear_cookie : String → String → Action p (Unit {0})
  clear_cookie domain cookie_key s = elim (build_cookie_domain domain) [
    | err m ↦ next tt (record s { w = write (text m) (write_header 500 s.w) })
    | ok cookie_domain ↦
        next tt (record s { w = add_cookie (deleted_cookie cookie_domain cookie_key) s.w })
  ]

  -- It never returns an error.
  abbrev pub set_login_cookie : Cookie → Action p (Unit {0})
  set_login_cookie cookie = set_header "Set-Login" "logged-in" >> set_cookie cookie

  -- An error is returned, and its callers drop it.
  unfoldable pub set_return_uri_cookie : String → String → Action p (Result (Unit {0}))
  set_return_uri_cookie domain uri s = elim (build_cookie_domain domain) [
    | err m ↦ next (err m) s
    | ok cookie_domain ↦ elim (db.get_prefix s.db) [
      | err m ↦ next (err m) s
      | ok prefix ↦ next (ok tt) (record s {
        w = add_cookie (lax_cookie cookie_domain (prefix ⧺ "return_uri") uri session) s.w;
      })
    ]
  ]

  unfoldable pub delete_return_uri_cookie : String → Action p (Unit {0})
  delete_return_uri_cookie domain s = elim (db.get_prefix s.db) [
    | err m ↦ next tt s
    | ok prefix ↦ clear_cookie domain (prefix ⧺ "return_uri") s
  ]

  unfoldable pub delete_login_key_cookie : String → Action p (Result (Unit {0}))
  delete_login_key_cookie domain s = elim (build_cookie_domain domain) [
    | err m ↦ next (err m) s
    | ok cookie_domain ↦ elim (login_key_name s.db) [
      | err m ↦ next (err m) s
      | ok name ↦
          next (ok tt) (record s { w = add_cookie (lax_cookie cookie_domain name "" session) s.w })
    ]
  ]

-- ===== src/Utils/LoginCookie.antt =====
-- utils.go, addIdentToCookie and addLoginToCookie: the login cookie is a signed token that carries
-- the identities and the logins of a browser.
pub mod Added
pub mod Merge
pub mod Session
use obligator.Base.{
  ℕ, ◌*◌, String, ◌⧺◌, Result, ok, err, ◌>>=◌, or_say, ok_or, ◌==◌, ◌&&◌, Option, none, some, List,
  [], ◌∷◌, ◌++◌, true, false, Bool, not, lookup, insert, keep, exists, map, if◌then◌else◌,
}
use obligator.Types.{
  Claim, identities, logins, time, str, Identity, Login, Logins, Cookie, Request, seconds,
  none_mode, lax_mode, SameSite,
}
use obligator.Platform.{Platform, Database}
use obligator.Jose.{parse_jwt, sign_jwt}
use obligator.Utils.CookieDomain.{build_cookie_domain}
use obligator.Utils.Random.{gen_random_key}
use obligator.Utils.Cookies.{identities_of, login_key_name, get_login_cookie}

-- The new identity first, then the old ones with another id.
unfoldable pub merge_identities : Identity → List Identity → List Identity
merge_identities new_ident old = new_ident ∷ keep (λ ident. not (ident.id == new_ident.id)) old

abbrev pub same_login : Login → Login → Bool
same_login new login = login.id == new.id && login.provider_name == new.provider_name

abbrev pub touch : Login → Login → Login
touch new login = if same_login new login then record login { timestamp = new.timestamp } else login

-- Every entry of the same id and provider gets the new time; with none, one is added.
unfoldable pub merge_logins : Login → List Login → List Login
merge_logins new old = if exists (same_login new) old then map (touch new) old else old ++ new ∷ []

abbrev pub logins_or_none : Option (List Login) → List Login
logins_or_none none = []
logins_or_none (some l) = l

unfoldable pub merge_client_logins : String → Login → Logins → Logins
merge_client_logins client_id new all =
    insert client_id (merge_logins new (logins_or_none (lookup client_id all))) all

abbrev pub one_year : ℕ
one_year = 86400 * 365

abbrev pub login_cookie : String → String → String → SameSite → Cookie
login_cookie domain name value mode = record {
  domain = domain;
  name = name;
  value = value;
  path = "/";
  secure = true;
  http_only = true;
  max_age = seconds one_year;
  same_site = mode;
}

abbrev pub claimed_identities : Option Claim → List Identity
claimed_identities none = []
claimed_identities (some c) = identities_of c

abbrev pub claimed_logins : Option Claim → Logins
claimed_logins (some (logins m)) = m
claimed_logins _ = []

module _ (p : Platform) where
  open p use {Db, db, Token, Source, new_token, get_claim, set_claim, format_time}

  -- The token in the cookie, if it is valid, and else a new one.
  unfoldable pub current_token : ℕ → Db → String → Option Token
  current_token now d cookie_value =
      if cookie_value == ""
      then none
      else elim (parse_jwt p now d cookie_value) [ ok parsed ↦ some parsed | err m ↦ none ]

  abbrev pub token_or_new : Option Token → Token
  token_or_new none = new_token
  token_or_new (some t) = t

  abbrev pub old_identities : Option Token → List Identity
  old_identities none = []
  old_identities (some t) = claimed_identities (get_claim "identities" t)

  abbrev pub old_logins : Option Token → Logins
  old_logins none = []
  old_logins (some t) = claimed_logins (get_claim "logins" t)

  -- A cookie text of the token with a new iat, nonce and the claim.
  unfoldable pub seal_token : ℕ → Db → Token → String → Claim → Source → Result (String × Source)
  seal_token now d key_jwt name claim src = do
    dated ← set_claim "iat" (time now) key_jwt
    drawn ← gen_random_key p src
    fresh ← set_claim "nonce" (str drawn.0) dated
    full ← set_claim name claim fresh
    signed ← sign_jwt p d full
    ok (signed, drawn.1)

  unfoldable pub add_ident_to_cookie :
      ℕ → String → Db → String → Identity → Source → Result (Cookie × Source)
  add_ident_to_cookie now domain d cookie_value new_ident src = do
    let current = current_token now d cookie_value
    sealed ←
        seal_token now d (token_or_new current) "identities"
          (identities (merge_identities new_ident (old_identities current))) src
    cookie_domain ← build_cookie_domain domain
    name ← login_key_name p d
    ok (login_cookie cookie_domain name sealed.0 none_mode, sealed.1)

  unfoldable pub add_login_to_cookie :
      ℕ → Db → Request → String → Login → Source → Result (Cookie × Source)
  add_login_to_cookie now d r client_id new_login src = do
    name ← login_key_name p d
    current_value ← or_say (get_login_cookie p d r) "Only logged-in users can access this endpoint"
    let current = current_token now d current_value
    let stamped = record new_login { timestamp = format_time now }
    sealed ←
        seal_token now d (token_or_new current) "logins"
          (logins (merge_client_logins client_id stamped (old_logins current))) src
    cookie_domain ← build_cookie_domain r.host
    ok (login_cookie cookie_domain name sealed.0 lax_mode, sealed.1)

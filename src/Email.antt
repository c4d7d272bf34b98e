-- ===== src/Email.antt =====
-- add_identity_email.go: login by a link that is sent to an e-mail address. `prefix`, the keys and
-- the cluster are those that the handlers were made with. The mutex makes each access of
-- pendingLogins one step.
pub mod Magic
pub mod Mail
pub mod Registered
pub mod Permits
pub mod Once
pub mod LoggedIn
pub mod Absent
pub mod Spent
pub mod CleanUp
use obligator.Base.{
  ℕ, ◌+◌, ◌-◌, String, ◌⧺◌, Bool, true, false, not, ◌&&◌, ◌||◌, Result, ok, err, ok_or, or_err,
  Option, none, some, List, [], ◌∷◌, ◌++◌, ◌==◌, if◌then◌else◌, lookup, insert, delete, exists, ltb,
  leb,
}
use obligator.Types.{
  Claim, str, time, Identity, Request, PendingLogin, EmailValidationCount, User, Cookie, seconds,
  lax_mode,
}
use obligator.Pages.{plain, email_magic, MagicPage}
use obligator.Platform.{Platform, Database}
use obligator.Handler.{◌>>=◌, ◌>>◌, next}
use obligator.Http.{
  set_random, Action, World, EmailJob, form_get, cookie_value, fail, fail_if, or_fail,
  or_fail_silent, redirect, gets, pure, set_cookie, show_page,
}
use obligator.Jose.{parse_jwt}
use obligator.Cluster.{Cluster, forward_if, forward_to_primary}
use obligator.Utils.Hash.{hash_with}
use obligator.Utils.Random.{gen_random_key}
use obligator.Utils.CookieDomain.{build_cookie_domain, domain_to_uri}
use obligator.Utils.Cookies.{
  get_remote_ip, get_identities, get_login_cookie, get_return_uri_cookie, delete_return_uri_cookie,
  valid_user, claim_from_token, lax_cookie,
}
use obligator.Utils.LoginCookie.{add_ident_to_cookie}
use obligator.Utils.CommonPage.{new_common_data, blank}

abbrev pub email_timeout : ℕ
email_timeout = 300

abbrev pub rate_limit_time : ℕ
rate_limit_time = 86400

abbrev pub email_validations_per_time_limit : ℕ
email_validations_per_time_limit = 12

abbrev pub has_expired : ℕ → PendingLogin → Bool
has_expired now pending = ltb pending.expires_at now

-- A round of the clean-up loop: what had expired in the copy is deleted from the map.
unfoldable pub clean_expired :
    ℕ → List (String × PendingLogin) → List (String × PendingLogin) → List (String × PendingLogin)
clean_expired now [] m = m
clean_expired now ((key, pending) ∷ copy) m =
    clean_expired now copy (if has_expired now pending then delete key m else m)

unfoldable pub magic_link_claims : String → String → String → ℕ → List (String × Claim)
magic_link_claims email key local_id now =
    ("iat", time now)
    ∷ ("exp", time (now + email_timeout))
    ∷ ("sub", str email)
    ∷ ("magic_link_key", str key)
    ∷ ("instance_id", str local_id)
    ∷ []

abbrev pub magic_link_of : String → String → String → String
magic_link_of server_uri key local_id =
    server_uri ⧺ "/magic?key=" ⧺ key ⧺ "&instance_id=" ⧺ local_id

abbrev pub email_identity : String → String → Identity
email_identity email name = record {
  id_type = "email";
  id = email;
  provider_name = "Email";
  name = name;
  email = email;
  email_verified = true;
}

module _ (p : Platform) where
  open p use {Db, db, Key, Token, Source, build, jwt_serialize, jwe_decrypt, sha256, hex}

  -- An identity of the session that has used up its requests.
  unfoldable pub is_limited : List Identity → List EmailValidationCount → Bool
  is_limited idents counts =
      exists
        (λ ident.
          exists
            (λ c.
              hash_with sha256 hex ident.id == c.hashed_requester_id
              && leb email_validations_per_time_limit c.count)
            counts)
        idents

  unfoldable pub login_email : ℕ → Request → Action p (Unit {0})
  login_email now r = do
    fail_if (not (r.method == "POST")) 405 "Invalid method"
    d ← gets (λ s. s.db)
    show_page p 400 (plain "login-email.html" (new_common_data p blank now d r))

  abbrev pub add_pending : String → PendingLogin → Action p (Unit {0})
  add_pending key pending s =
      next tt (record s { pending_logins = insert key pending s.pending_logins })

  -- go func() { h.StartEmailValidation(...) }()
  abbrev pub start_job : Bool → EmailJob → Action p (Unit {0})
  start_job allowed job s =
      if allowed then next tt (record s { jobs = s.jobs ++ job ∷ [] }) else next tt s

  module _ (prefix : String) (behind_proxy : Bool) (cluster : Cluster)
      (priv_key pub_key : Key) where
    -- The link is registered and bound to the browser by a cookie; the result is its text.
    unfoldable pub register_link : ℕ → Request → String → Action p String
    register_link now r email = do
      src ← gets (λ s. s.random)
      drawn ← or_fail_silent 500 (gen_random_key p src)
      set_random drawn.1
      remote_ip ← or_fail 500 (get_remote_ip p r behind_proxy)
      add_pending drawn.0
          (record { email = email; expires_at = now + email_timeout; remote_ip = remote_ip })
      email_code_jwt ← or_fail 500 (build (magic_link_claims email drawn.0 cluster.local_id now))
      encrypted_jwt ← or_fail 500 (jwt_serialize priv_key pub_key email_code_jwt)
      cookie_domain ← or_fail 500 (build_cookie_domain (domain_to_uri r.host))
      set_cookie (lax_cookie p cookie_domain (prefix ⧺ "email_login") encrypted_jwt (seconds 120))
      pure (magic_link_of (domain_to_uri r.host) drawn.0 cluster.local_id)

    -- The mail is for a known user, or for anyone on a public server. The page is the same either way.
    unfoldable pub send_if_known :
        ℕ → Request → String → List User → String → List Identity → Action p (Unit {0})
    send_if_known now r email users magic_link idents = do
      d ← gets (λ s. s.db)
      config ← or_fail_silent 500 (db.get_config d)
      start_job (config.is_public || valid_user email users) (record {
        email = email;
        root_uri = domain_to_uri r.host;
        magic_link = magic_link;
        identities = idents;
      })
      show_page p 400 (plain "email-sent.html" (new_common_data p blank now d r))

    -- Refused when an identity of the session is over the limit. A time before 1970 stands as 0.
    unfoldable pub request_mail : ℕ → Request → String → List User → String → Action p (Unit {0})
    request_mail now r email users magic_link = do
      d ← gets (λ s. s.db)
      let idents = ok_or [] (get_identities p now d r)
      counts ← or_fail_silent 400 (db.get_email_validation_counts (now - rate_limit_time) d)
      fail_if (is_limited idents counts) 429 "Too many email validation attempts"
      forward_to_primary p cluster
      send_if_known now r email users magic_link idents

    unfoldable pub email_sent : ℕ → Request → Action p (Unit {0})
    email_sent now r = do
      fail_if (not (r.method == "POST")) 405 "Invalid method"
      let email = form_get "email" r
      fail_if (email == "") 400 "email param missing"
      d ← gets (λ s. s.db)
      users ← or_fail 500 (db.get_users d)
      magic_link ← register_link now r email
      request_mail now r email users magic_link

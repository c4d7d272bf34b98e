-- ===== src/Email/Permits.antt =====
-- When /email-sent sends a mail.
use obligator.Base.{
  ℕ, ◌-◌, ◌≡◌, refl, String, Bool, true, false, ◌||◌, ok, ok_or, List, [], ◌∷◌, ◌++◌, Bool-cases,
  Result-cases, inl, inr, ◌⊎◌,
}
use obligator.Types.{Identity, Request, EmailValidationCount, User, DbConfig}
use obligator.Platform.{Platform}
use obligator.Handler.After.{After}
use obligator.Http.{show_page-After, World, form_get}
use obligator.Cluster.{Cluster}
use obligator.Utils.CookieDomain.{domain_to_uri}
use obligator.Utils.Cookies.{get_identities, valid_user}
use obligator.Email.{send_if_known, is_limited, rate_limit_time}
use obligator.Email.Registered.{IsRegistered}

module _ (p : Platform) where
  open p use {Db, db, Key, build, jwt_serialize, execute_template}

  module _ (prefix : String) (behind_proxy : Bool) (cluster : Cluster)
      (priv_key pub_key : Key) where
    -- The state has one mail more, for a known user or on a public server.
    pub record IsStarted (r : Request) (email : String) (users : List User) (link : String)
        (idents : List Identity) (s t : World p) : Type 0 where
      config : DbConfig
      read : db.get_config s.db ≡ ok config
      allowed : (config.is_public || valid_user email users) ≡ true
      started :
          t.jobs
          ≡ s.jobs
            ++ record {
              email = email;
              root_uri = domain_to_uri r.host;
              magic_link = link;
              identities = idents;
            }
              ∷ []

    abbrev pub Starts :
        Request → String → List User → String → List Identity → World p → World p → Type 0
    Starts r email users link idents s t =
        (t.pending_logins ≡ s.pending_logins)
        × ((t.jobs ≡ s.jobs) ⊎ IsStarted r email users link idents s t)

    pub send_if_known-Starts :
        (now : ℕ) (r : Request) (email : String) (users : List User) (link : String)
        (idents : List Identity) (s : World p)
        → After
            (Starts r email users link idents s)
            (λ a. Starts r email users link idents s)
            (send_if_known p prefix behind_proxy cluster priv_key pub_key now r email users link
              idents s)
    unfolding send_if_known
    send_if_known-Starts now r email users link idents s =
        elim (Result-cases (db.get_config s.db)) [
          | inr (m, e) ↦ rw (e, send_if_known) (refl, inl refl)
          | inl (config, e) ↦ elim (Bool-cases (config.is_public || valid_user email users)) [
            | inr b ↦
                rw (e, b, send_if_known)
                  (show_page-After p (Starts r email users link idents s) _ 400 _ s
                    (λ w. (refl, inl refl)))
            | inl b ↦
                rw (e, b, send_if_known)
                  (show_page-After p (Starts r email users link idents s) _ 400 _ _ (λ w. (
                    refl,
                    inr (record { config = config; read = e; allowed = b; started = refl }),
                  )))
          ]
        ]

    -- A mail that /email-sent sends: what allowed it, and what it is.
    pub record IsPermitted (now : ℕ) (r : Request) (s t : World p) : Type 0 where
      pub users : List User
      pub counts : List EmailValidationCount
      pub config : DbConfig
      pub link : String
      pub users_read : db.get_users s.db ≡ ok users
      pub counts_read : db.get_email_validation_counts (now - rate_limit_time) s.db ≡ ok counts
      pub config_read : db.get_config s.db ≡ ok config
      pub under_limit : is_limited p (ok_or [] (get_identities p now s.db r)) counts ≡ false
      pub allowed : (config.is_public || valid_user (form_get "email" r) users) ≡ true
      pub registered :
          IsRegistered p prefix behind_proxy cluster priv_key pub_key now r
            (form_get "email" r)
            link
            t
      pub started :
          t.jobs
          ≡ s.jobs
            ++ record {
              email = form_get "email" r;
              root_uri = domain_to_uri r.host;
              magic_link = link;
              identities = ok_or [] (get_identities p now s.db r);
            }
              ∷ []

    abbrev pub Permits : ℕ → Request → World p → World p → Type 0
    Permits now r s t = (t.jobs ≡ s.jobs) ⊎ IsPermitted now r s t

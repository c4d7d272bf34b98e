-- ===== src/Upstream/Admitted.antt =====
-- Who is admitted after the login at another provider.
use obligator.Base.{
  ℕ, ◌≡◌, ◌∙◌, String, Bool, true, not, ◌&&◌, ◌||◌, Result, ok, List, arith, Bool-cases,
  Result-cases, inl, inr, ◌⊎◌,
}
use obligator.Types.{OAuth2Provider, Request, User, DbConfig}
use obligator.Pages.{OAuth2ServerMetadata, OAuth2TokenResponse}
use obligator.Platform.{Platform}
use obligator.Handler.After.{final}
use obligator.Http.{World, cookies-write_header, cookies-add_header, add_header}
use obligator.Utils.Cookies.{get_return_uri_cookie, valid_user}
use obligator.Upstream.{Reply, admit_if_known}

module _ (p : Platform) where
  open p use {Db, db, Keyset}

  -- The address of a user that the server knows, or of anyone on a public server.
  pub record IsAdmitted (email : String) (d : Db) : Type 0 where
    pub users : List User
    pub config : DbConfig
    pub users_read : db.get_users d ≡ ok users
    pub config_read : db.get_config d ≡ ok config
    pub allowed : (config.is_public || valid_user email users) ≡ true

  module _ (prefix : String) (get_meta : String → Result OAuth2ServerMetadata)
      (get_keyset : String → Result Keyset)
      (post : String → List (String × String) → Reply OAuth2TokenResponse)
      (github_emails : String → Reply (List (String × Bool))) where
    pub admit_if_known-cookies :
        (now : ℕ) (r : Request) (provider : OAuth2Provider) (profile : String × String)
        (s : World p)
        → ((final (
              admit_if_known p prefix get_meta get_keyset post github_emails now r provider profile
                s)).w.cookies
            ≡ s.w.cookies)
          ⊎ IsAdmitted profile.0 s.db
    unfolding admit_if_known
    admit_if_known-cookies now r provider profile s = elim (Result-cases (db.get_users s.db)) [
      | inr (m, e1) ↦ inl (rw (e1, admit_if_known) (cookies-write_header 500 s.w))
      | inl (users, e1) ↦ elim (Result-cases (get_return_uri_cookie p s.db r)) [
        | inr (m, e2) ↦ inl (rw (e1, e2, admit_if_known) (cookies-write_header 500 s.w))
        | inl (uri, e2) ↦ elim (Result-cases (db.get_config s.db)) [
          | inr (m, e3) ↦ inl (rw (e1, e2, e3, admit_if_known) (cookies-write_header 500 s.w))
          | inl (config, e3) ↦
              elim (Bool-cases (not config.is_public && not (valid_user profile.0 users))) [
                | inl b ↦ inl (
                    rw (e1, e2, e3, b, admit_if_known)
                      (cookies-write_header 303 (add_header "Location" _ s.w)
                        ∙ cookies-add_header "Location" _ s.w))
                | inr b ↦ inr (record {
                  users = users;
                  config = config;
                  users_read = e1;
                  config_read = e3;
                  allowed = ground (arith, b);
                })
              ]
        ]
      ]
    ]

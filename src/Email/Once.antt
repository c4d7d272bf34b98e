-- ===== src/Email/Once.antt =====
-- The key of a link after its form was handled.
use obligator.Base.{
  ℕ, ◌≡◌, ◌∙◌, ap, String, ok_or, none, eq_refl, lookup, lookup-delete, Option-cases, Result-cases,
  inl, inr,
}
use obligator.Types.{Request}
use obligator.Platform.{Platform}
use obligator.Handler.{◌>>◌}
use obligator.Handler.After.{final}
use obligator.Http.{World, form_get, fail}
use obligator.Cluster.{Cluster}
use obligator.Utils.CookieDomain.{build_cookie_domain}
use obligator.Utils.Cookies.{
  get_login_cookie, get_return_uri_cookie, delete_return_uri_cookie, clear_cookie,
}
use obligator.Utils.LoginCookie.{add_ident_to_cookie}
use obligator.Email.{email_identity}
use obligator.Email.Magic.{complete_email_login, log_in, go_back}

module _ (p : Platform) where
  open p use {db}

  go_back-pending :
      (r : Request) (s : World p) → (final (go_back p r s)).pending_logins ≡ s.pending_logins
  unfolding go_back delete_return_uri_cookie clear_cookie
  go_back-pending r s = elim (Result-cases (get_return_uri_cookie p s.db r)) [
    | inr (m, e) ↦ rw (e, go_back)
    | inl (uri, e) ↦ elim (Result-cases (db.get_prefix s.db)) [
      | inr (m, q) ↦ rw (e, delete_return_uri_cookie, q, go_back)
      | inl (prefix, q) ↦ elim (Result-cases (build_cookie_domain r.host)) [
        | inr (m, b) ↦ rw (e, delete_return_uri_cookie, q, clear_cookie, b, go_back)
        | inl (domain, b) ↦ rw (e, delete_return_uri_cookie, q, clear_cookie, b, go_back)
      ]
    ]
  ]

  pub log_in-pending :
      (now : ℕ) (r : Request) (email : String) (s : World p)
      → (final ((log_in p now r email >> go_back p r) s)).pending_logins ≡ s.pending_logins
  unfolding log_in
  log_in-pending now r email s =
      elim (Result-cases (
        add_ident_to_cookie p now r.host s.db (ok_or "" (get_login_cookie p s.db r))
          (email_identity email (form_get "name" r)) s.random)) [
            | inr (m, e) ↦ rw (e, log_in)
            | inl (c, e) ↦ rw (e, log_in) (go_back-pending r _)
          ]

  -- The link's key is in no map after the form was handled.
  pub used_up :
      (cluster : Cluster) (now : ℕ) (r : Request) (s : World p)
      → r.method ≡ "POST"
      → form_get "instance_id" r ≡ cluster.local_id
      → lookup
          (form_get "magic_link_key" r)
          (final (complete_email_login p cluster now r s)).pending_logins
        ≡ none
  unfolding complete_email_login
  used_up cluster now r s post here =
      elim (Option-cases (lookup (form_get "magic_link_key" r) s.pending_logins)) [
        | inl e ↦ rw (post, here, eq_refl cluster.local_id, e, complete_email_login) e
        | inr (pending, e) ↦
            rw (post, here, eq_refl cluster.local_id, e, complete_email_login)
              (ap (lookup (form_get "magic_link_key" r))
                  (log_in-pending now (record r { method = "POST" }) pending.email _)
                ∙ lookup-delete (form_get "magic_link_key" r) (form_get "magic_link_key" r)
                    s.pending_logins
                ∙ rw (eq_refl (form_get "magic_link_key" r)))
      ]

  pub unknown :
      (cluster : Cluster) (now : ℕ) (r : Request) (s : World p)
      → r.method ≡ "POST"
      → form_get "instance_id" r ≡ cluster.local_id
      → lookup (form_get "magic_link_key" r) s.pending_logins ≡ none
      → complete_email_login p cluster now r s ≡ fail 500 "Not a valid session" s
  unfolding complete_email_login
  unknown cluster now r s post here e =
      rw (post, here, eq_refl cluster.local_id, e, complete_email_login)

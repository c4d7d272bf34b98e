-- ===== src/Email/LoggedIn.antt =====
-- The link of a mail logs its address in.
use mathlib.Core.List.{append-nil}
use obligator.Base.{
  ℕ, Bool, ◌≤◌, ◌≡◌, ◌≢◌, refl, sym, ◌∙◌, String, ok, ok_or, Option, none, some, List, [], ◌∷◌,
  ◌++◌, eq_refl, eq_iff, ◌⧺◌, lookup, delete, Result-cases, inl, inr,
}
use obligator.Types.{Cookie, Request}
use obligator.Pages.{text}
use obligator.Platform.{Platform}
use obligator.JwtLaws.{JwtLaws, HasNoLimit}
use obligator.Handler.{◌>>◌}
use obligator.Handler.After.{final}
use obligator.Http.{
  World, Response, form_get, cookie_value, add_cookie, add_header, write_header, cookies-write,
  cookies-write_header, cookies-add_header,
}
use obligator.Cluster.{Cluster}
use obligator.Jose.{get_public_jwks}
use obligator.Utils.CookieDomain.{build_cookie_domain}
use obligator.Utils.Cookies.{
  get_login_cookie, get_identities, cross_site_detector, get_return_uri_cookie,
  delete_return_uri_cookie, clear_cookie, deleted_cookie,
}
use obligator.Utils.LoginCookie.{
  merge_identities, old_identities, current_token, token_or_new, add_ident_to_cookie,
}
use obligator.Utils.LoginCookie.Session.{get_identities-add_ident_to_cookie}
use obligator.Email.{email_identity}
use obligator.Email.Magic.{complete_email_login, log_in, go_back}
use obligator.Email.Registered.{IsRegistered}

-- The cookies of the second response begin with those of the first.
abbrev pub Extends : List Cookie → List Cookie → Type 0
Extends old new = (more : List Cookie) × (new ≡ old ++ more)

same-Extends : (old new : List Cookie) → new ≡ old → Extends old new
same-Extends old new e = ([], e ∙ sym (append-nil old))

add_cookie-Extends_at :
    (c : Cookie) (w : Response) (status : Option ℕ)
    → Extends w.cookies (add_cookie c (record w { status = status })).cookies
add_cookie-Extends_at c w none = (c ∷ [], refl)
add_cookie-Extends_at c w (some n) = same-Extends w.cookies w.cookies refl

module _ (p : Platform) where
  open p use {Db, db, Source, Keyset, Key}

  redirect-cookies :
      (uri : String) (w : Response)
      → (write_header 303 (add_header "Location" uri w)).cookies ≡ w.cookies
  redirect-cookies uri w = cookies-write_header 303 _ ∙ cookies-add_header "Location" uri w

  pub go_back-Extends :
      (r : Request) (s : World p) → Extends s.w.cookies (final (go_back p r s)).w.cookies
  unfolding go_back delete_return_uri_cookie clear_cookie
  go_back-Extends r s = elim (Result-cases (get_return_uri_cookie p s.db r)) [
    | inr (m, e) ↦
        same-Extends s.w.cookies (final (go_back p r s)).w.cookies
          (rw (e, go_back) (cookies-write_header 500 s.w))
    | inl (uri, e) ↦ elim (Result-cases (db.get_prefix s.db)) [
      | inr (m, q) ↦
          same-Extends s.w.cookies (final (go_back p r s)).w.cookies
            (rw (e, delete_return_uri_cookie, q, go_back) (redirect-cookies uri s.w))
      | inl (prefix, q) ↦ elim (Result-cases (build_cookie_domain r.host)) [
        | inr (m, b) ↦ same-Extends s.w.cookies (final (go_back p r s)).w.cookies (
            rw (e, delete_return_uri_cookie, q, clear_cookie, b, go_back)
              (redirect-cookies uri _ ∙ cookies-write (text m) 500 s.w))
        | inl (domain, b) ↦
            let (more, h) =
              add_cookie-Extends_at (deleted_cookie p domain (prefix ⧺ "return_uri")) s.w
                s.w.status in
            (
              more,
              rw (e, delete_return_uri_cookie, q, clear_cookie, b, go_back)
                  (redirect-cookies uri _ ∙ h),
            )
      ]
    ]
  ]

  log_in-Extends :
      (now : ℕ) (r : Request) (email : String) (s : World p) (c : Cookie) (src : Source)
      → s.w.status ≡ none
      → add_ident_to_cookie p now r.host s.db
          (ok_or "" (get_login_cookie p s.db r))
          (email_identity email (form_get "name" r))
          s.random
        ≡ ok (c, src)
      → Extends (s.w.cookies ++ c ∷ []) (final ((log_in p now r email >> go_back p r) s)).w.cookies
  unfolding log_in
  log_in-Extends now r email s c src open_ e = rw (open_, e, log_in) (go_back-Extends r _)

  module _ (laws : JwtLaws p) (prefix : String) (behind_proxy : Bool) (cluster : Cluster)
      (priv_key pub_key : Key) where
    -- The link of a mail logs in: a link that /email-sent has registered, and that was neither used
    -- nor cleaned up since, answers its form with a login cookie, and a later request that brings
    -- the cookie has the mail's address among its identities, beside those that the browser had.
    -- The cookie's signature did not fail, and the old token has no time limit.
    pub complete_email_login-IsRegistered :
        (asked now later : ℕ) (r r' r'' : Request) (email link x : String) (t s : World p)
        (m : IsRegistered p prefix behind_proxy cluster priv_key pub_key asked r email link t)
        (c : Cookie) (src : Source) (public : Keyset)
        → lookup m.key s.pending_logins ≡ lookup m.key t.pending_logins
        → form_get "magic_link_key" r' ≡ m.key
        → form_get "instance_id" r' ≡ cluster.local_id
        → r'.method ≡ "POST"
        → s.w.status ≡ none
        → add_ident_to_cookie p now r'.host s.db
            (ok_or "" (get_login_cookie p s.db r'))
            (email_identity email (form_get "name" r'))
            s.random
          ≡ ok (c, src)
        → c.value ≢ ""
        → get_public_jwks p s.db ≡ ok public
        → HasNoLimit p
            (token_or_new p (current_token p now s.db (ok_or "" (get_login_cookie p s.db r'))))
        → cookie_value c.name r'' ≡ ok c.value
        → cookie_value cross_site_detector r'' ≡ ok x
        → now ≤ later
        → Extends
            (s.w.cookies ++ c ∷ [])
            (final (complete_email_login p cluster now r' s)).w.cookies
          × (get_identities p later s.db r''
              ≡ ok (
                  merge_identities (email_identity email (form_get "name" r')) (
                    old_identities p
                      (current_token p now s.db (ok_or "" (get_login_cookie p s.db r'))))))
    unfolding complete_email_login
    complete_email_login-IsRegistered asked now later r r' r'' email link x t s m c src public kept
          named here post open_ e n k limit b1 b2 le =
        (
          rw
              (
                (eq_iff r'.method "POST").1 post,
                here,
                eq_refl cluster.local_id,
                named,
                kept ∙ m.pending,
                complete_email_login,
              )
              (log_in-Extends now r' email
                (record s { pending_logins = delete m.key s.pending_logins }) c src open_ e),
          get_identities-add_ident_to_cookie p laws now later r'.host s.db
              (ok_or "" (get_login_cookie p s.db r')) (email_identity email (form_get "name" r'))
              s.random c src public r'' x e n k limit b1 b2 le,
        )

-- ===== src/Server/Mux.antt =====
-- obligator.go, ObligatorMux.ServeHTTP. The handlers that it chooses from are parameters; header
-- names stand in net/http's canonical spelling.
use obligator.Base.{
  ℕ, ◌≡◌, refl, ◌≢◌, String, ◌⧺◌, Bool, ok, err, Option, none, some, List, lookup, insert,
  lookup-insert, if◌then◌else◌, ◌==◌, eq_iff, Bool-cases, ◌⊎◌, inl, inr, arith, ◌∙◌,
}
use obligator.Types.{Request, seconds}
use obligator.Platform.{Platform}
use obligator.Handler.{◌>>=◌, ◌>>◌, panic}
use obligator.Http.{Action, World, set_header, set_cookie, redirect, fail, or_fail, header_get}
use obligator.Utils.CookieDomain.{build_cookie_domain}
use obligator.Utils.Cookies.{get_remote_ip, cross_site_detector, lax_cookie}
use obligator.Utils.LoginCookie.{one_year}
use obligator.Server.Validate.{
  Validation, Checked, verdict, panicked, validate, Means, validate-Means,
}

abbrev pub lastlogin_uri : Request → String
lastlogin_uri r =
    "https://lastlogin.net" ⧺ r.path ⧺ (if r.raw_query == "" then "" else "?" ⧺ r.raw_query)

abbrev pub id_text : Option Validation → String
id_text none = ""
id_text (some v) = v.id

abbrev pub id_type_text : Option Validation → String
id_type_text none = ""
id_type_text (some v) = v.id_type

-- newReq, with the two headers set.
abbrev pub with_identity : Option Validation → Request → Request
with_identity v r = record r {
  headers = insert "Remote-Id" (id_text v) (insert "Remote-Id-Type" (id_type_text v) r.headers);
}

module _ (p : Platform) (behind_proxy : Bool)
    (mux_map : List (String × (Request → Action p (Unit {0}))))
    (mux : Request → Action p (Unit {0})) (now : ℕ) where
  unfoldable pub serve_app : (Request → Action p (Unit {0})) → Request → Action p (Unit {0})
  serve_app inner r s = elim (validate p now s.db r) [
    | panicked ↦ panic s
    | verdict (err m) ↦ fail 401 m s
    | verdict (ok v) ↦ inner (with_identity v r) s
  ]

  unfoldable pub serve_own : Request → Action p (Unit {0})
  serve_own r = do
    set_header "Content-Security-Policy" "frame-ancestors 'none'"
    set_header "Referrer-Policy" "no-referrer"
    remote_ip ← or_fail 500 (get_remote_ip p r behind_proxy)
    cookie_domain ← or_fail 500 (build_cookie_domain r.host)
    set_cookie (lax_cookie p cookie_domain cross_site_detector "true" (seconds one_year))
    mux r

  unfoldable pub serve_http : Request → Action p (Unit {0})
  unfolding serve_app serve_own
  serve_http r =
      if r.host == "lastlogin.io"
      then redirect (lastlogin_uri r) 308
      else elim (lookup r.host mux_map) [ some inner ↦ serve_app inner r | none ↦ serve_own r ]

  pub header_get-with_identity :
      (k : String) (v : Option Validation) (r : Request)
      → header_get k (with_identity v r) ≡ (
          if "Remote-Id" == k
          then id_text v
          else if "Remote-Id-Type" == k
          then id_type_text v
          else header_get k r)
  header_get-with_identity k v r = ground (
    arith,
    lookup-insert "Remote-Id" k (id_text v) (insert "Remote-Id-Type" (id_type_text v) r.headers),
    lookup-insert "Remote-Id-Type" k (id_type_text v) r.headers,
  )

  -- What an application behind the multiplexer is called with.
  abbrev pub Forwards : (Request → Action p (Unit {0})) → Request → World p → Type 0
  Forwards inner r s =
      ((m : String) × Means p now s.db r (verdict (err m)) × (serve_http r s ≡ fail 401 m s))
      ⊎ (Means p now s.db r panicked × (serve_http r s ≡ panic s))
      ⊎ ((v : Option Validation) × Means p now s.db r (verdict (ok v))
          × (serve_http r s ≡ inner (with_identity v r) s)
          × ((k : String)
              → header_get k (with_identity v r) ≡ (
                  if "Remote-Id" == k
                  then id_text v
                  else if "Remote-Id-Type" == k
                  then id_type_text v
                  else header_get k r)))

  serve_app-Forwards :
      (inner : Request → Action p (Unit {0})) (r : Request) (s : World p) (c : Checked)
      → validate p now s.db r ≡ c
      → Means p now s.db r c
      → serve_http r s ≡ serve_app inner r s
      → Forwards inner r s
  unfolding serve_app
  serve_app-Forwards inner r s panicked e m q = inr (inl (m, q ∙ rw (e, serve_app)))
  serve_app-Forwards inner r s (verdict (err t)) e m q = inl (t, m, q ∙ rw (e, serve_app))
  serve_app-Forwards inner r s (verdict (ok v)) e m q =
      inr (inr (v, m, q ∙ rw (e, serve_app), λ k. header_get-with_identity k v r))

  pub serve_http-serve_app :
      (inner : Request → Action p (Unit {0})) (r : Request) (s : World p)
      → r.host ≢ "lastlogin.io"
      → lookup r.host mux_map ≡ some inner
      → serve_http r s ≡ serve_app inner r s
  unfolding serve_http
  serve_http-serve_app inner r s h e = elim (Bool-cases (r.host == "lastlogin.io")) [
    | inl b ↦ absurd (h ((eq_iff _ _).0 b))
    | inr b ↦ rw (b, e)
  ]

  -- An application is called only after its request was validated, and then with the validated
  -- identity in Remote-Id and Remote-Id-Type, both blank under passthrough, whatever the client
  -- sent there; its other headers are the client's. A request that is refused gets a 401.
  pub serve_http-Forwards :
      (inner : Request → Action p (Unit {0})) (r : Request) (s : World p)
      → r.host ≢ "lastlogin.io"
      → lookup r.host mux_map ≡ some inner
      → Forwards inner r s
  serve_http-Forwards inner r s h e =
      serve_app-Forwards inner r s (validate p now s.db r) refl (validate-Means p now s.db r)
        (serve_http-serve_app inner r s h e)

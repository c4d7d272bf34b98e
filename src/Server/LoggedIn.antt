-- ===== src/Server/LoggedIn.antt =====
-- What an application behind the multiplexer sees of a browser that has logged in.
use obligator.Base.{ℕ, ◌≤◌, ◌≡◌, ◌≢◌, ◌∙◌, String, Bool, ok, some, List, lookup}
use obligator.Types.{Identity, Cookie, Request}
use obligator.Platform.{Platform}
use obligator.JwtLaws.{JwtLaws, HasNoLimit}
use obligator.Http.{Action, World, cookie_value, header_get}
use obligator.Jose.{get_public_jwks}
use obligator.Utils.Cookies.{get_login_cookie, cross_site_detector}
use obligator.Utils.LoginCookie.{
  merge_identities, old_identities, current_token, token_or_new, add_ident_to_cookie,
}
use obligator.Utils.LoginCookie.Session.{
  IsSession, add_ident_to_cookie-IsSession, parse_jwt-IsSession,
}
use obligator.Server.Validate.{Validation, verdict, validate}
use obligator.Server.Mux.{
  serve_http, serve_app, serve_http-serve_app, with_identity, header_get-with_identity,
}

abbrev pub validation_of : Identity → Validation
validation_of ident = record { id = ident.id; id_type = ident.id_type }

module _ (p : Platform) (laws : JwtLaws p) where
  open p use {Db, db, Source, Keyset}

  validate-IsSession :
      (now later : ℕ) (d : Db) (ident : Identity) (l : List Identity) (c : Cookie) (public : Keyset)
      (r : Request) (x : String) (passthrough : Bool)
      → IsSession p laws now d (merge_identities ident l) c
      → c.value ≢ ""
      → get_public_jwks p d ≡ ok public
      → db.get_forward_auth_passthrough d ≡ ok passthrough
      → cookie_value c.name r ≡ ok c.value
      → cookie_value cross_site_detector r ≡ ok x
      → now ≤ later
      → validate p later d r ≡ verdict (ok (some (validation_of ident)))
  unfolding validate get_login_cookie merge_identities
  validate-IsSession now later d ident l c public r x passthrough s n k e b1 b2 le =
      let parsed =
        parse_jwt-IsSession p laws now later d (merge_identities ident l) c public s n k le in
      rw (validate, e, get_login_cookie, s.name, b1, b2, parsed, s.claim)

  module _ (behind_proxy : Bool) (mux_map : List (String × (Request → Action p (Unit {0}))))
      (mux : Request → Action p (Unit {0})) where
    -- A login reaches the applications: when a login has set a cookie whose signature did not fail,
    -- a later request that brings it to a domain with an application is passed on to the
    -- application, with the id and the type of the identity that logged in last in Remote-Id and
    -- Remote-Id-Type. The old token has no time limit, and the setting for passthrough can be read.
    pub serve_http-add_ident_to_cookie :
        (now later : ℕ) (host old : String) (new_ident : Identity) (src : Source) (c : Cookie)
        (src' : Source) (public : Keyset) (r : Request) (x : String) (passthrough : Bool)
        (s : World p) (inner : Request → Action p (Unit {0}))
        → add_ident_to_cookie p now host s.db old new_ident src ≡ ok (c, src')
        → c.value ≢ ""
        → get_public_jwks p s.db ≡ ok public
        → HasNoLimit p (token_or_new p (current_token p now s.db old))
        → db.get_forward_auth_passthrough s.db ≡ ok passthrough
        → cookie_value c.name r ≡ ok c.value
        → cookie_value cross_site_detector r ≡ ok x
        → now ≤ later
        → r.host ≢ "lastlogin.io"
        → lookup r.host mux_map ≡ some inner
        → let v = some (validation_of new_ident) in
          (serve_http p behind_proxy mux_map mux later r s ≡ inner (with_identity v r) s)
          × (header_get "Remote-Id" (with_identity v r) ≡ new_ident.id)
          × (header_get "Remote-Id-Type" (with_identity v r) ≡ new_ident.id_type)
    unfolding serve_app
    serve_http-add_ident_to_cookie now later host old new_ident src c src' public r x passthrough s
          inner e n k limit readable b1 b2 le other app =
        let session =
          add_ident_to_cookie-IsSession p laws now host s.db old new_ident src c src' e limit in
        let valid =
          validate-IsSession now later s.db new_ident
            (old_identities p (current_token p now s.db old)) c public r x passthrough session n k
            readable b1 b2 le in
        let v = some (validation_of new_ident) in
        (
          serve_http-serve_app p behind_proxy mux_map mux later inner r s other app
              ∙ rw (valid, serve_app),
          header_get-with_identity p behind_proxy mux_map mux later "Remote-Id" v r,
          header_get-with_identity p behind_proxy mux_map mux later "Remote-Id-Type" v r,
        )

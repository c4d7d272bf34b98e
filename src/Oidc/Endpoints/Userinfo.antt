-- ===== src/Oidc/Endpoints/Userinfo.antt =====
-- The access token of /token at /userinfo.
use Prim.Native.String.{String, ◌∷◌}
use obligator.Base.{
  ℕ, ◌+◌, ◌<◌, ◌≤◌, ◌≡◌, ◌≢◌, refl, ◌⧺◌, ok, inr, split-append, split_of_Without, Without, arith,
}
use obligator.Types.{Request}
use obligator.Pages.{json, userinfo}
use obligator.Platform.{Platform}
use obligator.JwtLaws.{JwtLaws}
use obligator.Handler.{next}
use obligator.Http.{World, Response, add_header, header_get, write}
use obligator.Jose.{get_public_jwks, sign_jwt}
use obligator.Jose.Signed.{parse_jwt-sign_jwt}
use obligator.Oidc.Token.{access_claims}
use obligator.Oidc.Endpoints.{userinfo_handler, bearer_token, json_type}

abbrev pub bearer : String → String
bearer v = "Bearer" ⧺ (" " ∷ v)

bearer_token-bearer : (v : String) → Without b' ' v → bearer_token (bearer v) ≡ ok v
unfolding bearer_token
bearer_token-bearer v h = rw (
  split-append b' ' "Bearer" " " v
      (omega arith, (omega arith, (omega arith, (omega arith, (omega arith, (omega arith, tt))))))
      refl,
  split_of_Without b' ' v h,
  bearer_token,
)

abbrev pub userinfo_reply : String → Response → Response
userinfo_reply sub w =
    write (json (userinfo (record { sub = sub; email = sub })))
      (add_header "Content-Type" json_type w)

module _ (p : Platform) (laws : JwtLaws p) where
  open p use {Db, Token, Keyset, build, get_claim, subject}

  -- The access token that /token gives for a subject, brought to /userinfo within 16 seconds as a
  -- bearer token, is answered with that subject. A signed token has no space.
  pub userinfo_handler-access_claims :
      (now later : ℕ) (sub v : String) (t : Token) (public : Keyset) (s : World p) (r : Request)
      → build (access_claims sub now) ≡ ok t
      → sign_jwt p s.db t ≡ ok v
      → v ≢ ""
      → Without b' ' v
      → get_public_jwks p s.db ≡ ok public
      → header_get "Authorization" r ≡ bearer v
      → now ≤ later
      → later < now + 16
      → userinfo_handler p later r s ≡ next tt (record s { w = userinfo_reply sub s.w })
  unfolding userinfo_handler
  userinfo_handler-access_claims now later sub v t public s r b signed n w k h le lt =
      let claim = λ (c : String). laws.get-build c (access_claims sub now) t refl b in
      let parsed =
        parse_jwt-sign_jwt p laws later s.db t v public n signed k
          (inr (now + 16, claim "exp", lt), claim "nbf", (now, claim "iat", le)) in
      rw (h, bearer_token-bearer v w, parsed, laws.subject-sub t, claim "sub")

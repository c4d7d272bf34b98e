-- ===== src/Oidc/Auth/Remembered.antt =====
-- What /auth keeps in its cookie is what /approve reads.
use obligator.Base.{ℕ, ◌+◌, ◌<◌, ◌≤◌, ◌≡◌, ◌≢◌, refl, ap, String, ok, lookup, inr}
use obligator.Types.{Request, seconds}
use obligator.Platform.{Platform}
use obligator.JwtLaws.{JwtLaws}
use obligator.Handler.{next}
use obligator.Http.{World, add_cookie, cookie_value, form_get}
use obligator.Jose.{get_public_jwks, sign_jwt}
use obligator.Utils.CookieDomain.{build_cookie_domain}
use obligator.Utils.Cookies.{
  set_jwt_cookie, get_jwt_from_cookie, claim_from_token, lax_cookie, text_of,
}
use obligator.Jose.Signed.{parse_jwt-sign_jwt}
use obligator.Oidc.AuthRequest.{OAuth2AuthRequest}
use obligator.Oidc.Auth.{auth_request_claims, flow_type}

module _ (p : Platform) where
  open p use {Db, Token, Keyset, build, get_claim}

  -- What /approve takes from the token is what the request to /auth asked for.
  pub record Remembers (ar : OAuth2AuthRequest) (r : Request) (t : Token) : Type 0 where
    pub client : claim_from_token p "client_id" t ≡ ar.client_id
    pub target : claim_from_token p "redirect_uri" t ≡ ar.redirect_uri
    pub state : claim_from_token p "state" t ≡ ar.state
    pub scope : claim_from_token p "scope" t ≡ form_get "scope" r
    pub nonce : claim_from_token p "nonce" t ≡ form_get "nonce" r
    pub challenge : claim_from_token p "pkce_code_challenge" t ≡ form_get "code_challenge" r
    pub response : claim_from_token p "response_type" t ≡ ar.response_type
    pub flow : claim_from_token p "flow_type" t ≡ flow_type (form_get "provider" r)

  module _ (laws : JwtLaws p) where
    module _ (ar : OAuth2AuthRequest) (r : Request) (now : ℕ) (t : Token) where
      claim_of :
          (k : String)
          → build (auth_request_claims ar r now) ≡ ok t
          → get_claim k t ≡ lookup k (auth_request_claims ar r now)
      unfolding auth_request_claims
      claim_of k e = laws.get-build k (auth_request_claims ar r now) t refl e

      built-Remembers : build (auth_request_claims ar r now) ≡ ok t → Remembers ar r t
      unfolding auth_request_claims claim_from_token
      built-Remembers e = record {
        client = ap text_of (claim_of "client_id" e);
        target = ap text_of (claim_of "redirect_uri" e);
        state = ap text_of (claim_of "state" e);
        scope = ap text_of (claim_of "scope" e);
        nonce = ap text_of (claim_of "nonce" e);
        challenge = ap text_of (claim_of "pkce_code_challenge" e);
        response = ap text_of (claim_of "response_type" e);
        flow = ap text_of (claim_of "flow_type" e);
      }

      -- When /auth has built the token of a request and a signature of it does not fail, its
      -- cookie is set, and for 8 minutes a request that brings the cookie is read by /approve as
      -- that token, which holds what the request to /auth asked for.
      pub get_jwt_from_cookie-set_jwt_cookie :
          (later : ℕ) (host name v domain : String) (public : Keyset) (s : World p) (r' : Request)
          → build (auth_request_claims ar r now) ≡ ok t
          → sign_jwt p s.db t ≡ ok v
          → v ≢ ""
          → get_public_jwks p s.db ≡ ok public
          → build_cookie_domain host ≡ ok domain
          → cookie_value name r' ≡ ok v
          → now ≤ later
          → later < now + 480
          → (set_jwt_cookie p host t name 480 s
              ≡ next tt
                  (record s { w = add_cookie (lax_cookie p domain name v (seconds 480)) s.w }))
            × (get_jwt_from_cookie p later s.db name r' ≡ ok t)
            × Remembers ar r t
      unfolding auth_request_claims set_jwt_cookie get_jwt_from_cookie
      get_jwt_from_cookie-set_jwt_cookie later host name v domain public s r' e signed n k d c le
            lt =
          (
            rw (signed, d, set_jwt_cookie),
            rw (c, get_jwt_from_cookie)
                (parse_jwt-sign_jwt p laws later s.db t v public n signed k (
                  inr (now + 480, claim_of "exp" e, lt),
                  claim_of "nbf" e,
                  (now, claim_of "iat" e, le),
                )),
            built-Remembers e,
          )

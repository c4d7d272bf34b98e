-- ===== src/FedCmLogin/Asserted.antt =====
-- Who is logged in by a token of FedCM.
use obligator.Base.{ℕ, ◌≡◌, String, Bool, Result, ok, ok_or, List, ◌∷◌}
use obligator.Types.{Cookie, Identity, Request}
use obligator.Pages.{OAuth2ServerMetadata}
use obligator.Platform.{Platform}
use obligator.Handler.After.{final}
use obligator.Http.{World, form_get}
use obligator.Utils.CookieDomain.{domain_to_uri}
use obligator.Utils.Cookies.{get_login_cookie, get_return_uri_cookie, text_of}
use obligator.Utils.LoginCookie.{add_ident_to_cookie}
use obligator.Upstream.{Reply}
use obligator.Metadata.{get_oidc_configuration}
use obligator.FedCmLogin.{audience_of, fed_cm_identity, complete_login_fed_cm}

module _ (p : Platform) where
  open p use {Token, Keyset, Source, get_claim, jwt_parse}

  -- The login cookie for the identity, and the page that the login started from.
  pub record IsAdmitted (now : ℕ) (r : Request) (s : World p) (new_ident : Identity) : Type 0 where
    pub cookie : Cookie
    pub random : Source
    pub return_uri : String
    pub added :
        add_ident_to_cookie p now r.host s.db
          (ok_or "" (get_login_cookie p s.db r))
          new_ident
          s.random
        ≡ ok (cookie, random)
    pub returns : get_return_uri_cookie p s.db r ≡ ok return_uri

  module _ (parse_insecure : String → Result Token) (http_get : String → Reply OAuth2ServerMetadata)
      (register : String → Result (Unit {0})) (refresh : String → Result Keyset)
      (is_openid : Token → Bool) where
    abbrev pub identity_in : String → Token → Identity
    identity_in issuer token =
        fed_cm_identity issuer (text_of (get_claim "email" token))
          (text_of (get_claim "name" token))

    -- The keys of the token's own issuer verify it, and it is made out to this server.
    pub record IsAsserted (now : ℕ) (r : Request) (s : World p) : Type 0 where
      pub unverified : Token
      pub meta : OAuth2ServerMetadata
      pub keyset : Keyset
      pub token : Token
      pub more : List String
      pub posted : r.method ≡ "POST"
      pub read : parse_insecure (form_get "fedcm-token" r) ≡ ok unverified
      pub described :
          get_oidc_configuration http_get (text_of (get_claim "iss" unverified)) ≡ ok meta
      pub fetched : refresh meta.jwks_uri ≡ ok keyset
      pub verified : jwt_parse now keyset (form_get "fedcm-token" r) ≡ ok token
      pub addressed : audience_of (get_claim "aud" token) ≡ domain_to_uri r.host ∷ more
      pub admitted : IsAdmitted now r s (identity_in (text_of (get_claim "iss" unverified)) token)

    login : ℕ → Request → World p → World p
    login now r s =
        final (complete_login_fed_cm p parse_insecure http_get register refresh is_openid now r s)

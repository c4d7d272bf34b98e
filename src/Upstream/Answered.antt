-- ===== src/Upstream/Answered.antt =====
-- What the token endpoint of another provider has answered to.
use obligator.Base.{
  ◌≡◌, ◌≢◌, ◌⊎◌, arith, ok-injective, sym, String, ◌⧺◌, Result, ok, err, true, false, List, [], ◌∷◌,
  ◌==◌, eq_iff, Bool-cases, Result-cases, inl, inr,
}
use obligator.Types.{OAuth2Provider, Request}
use obligator.Pages.{OAuth2ServerMetadata, OAuth2TokenResponse}
use obligator.Platform.{Platform}
use obligator.Http.{form_get}
use obligator.Utils.Cookies.{claim_from_token}
use obligator.Upstream.{Reply, accepted, token_endpoint}

err-ne-ok : (m a : String) → ¬ (err m ≡ ok a)
err-ne-ok m a e = cc

module _ (p : Platform) (get_meta : String → Result OAuth2ServerMetadata)
    (post : String → List (String × String) → Reply OAuth2TokenResponse) where
  open p use {Token}

  -- The token endpoint: of an OpenID Connect provider the one in its metadata, of Facebook and of
  -- another provider the one that is stored.
  abbrev pub IsEndpoint : OAuth2Provider → String → Type 0
  IsEndpoint provider endpoint =
      ((provider.open_id_connect ≡ true)
        × (provider.id ≢ "facebook")
        × (meta : OAuth2ServerMetadata) × (get_meta provider.id ≡ ok meta)
        × (endpoint ≡ meta.token_endpoint))
      ⊎ (((provider.open_id_connect ≡ false) ⊎ (provider.id ≡ "facebook"))
          × (endpoint ≡ provider.token_uri))

  pub token_endpoint-IsEndpoint :
      (prefix : String) (provider : OAuth2Provider) (endpoint : String)
      → token_endpoint p prefix get_meta provider ≡ ok endpoint
      → IsEndpoint provider endpoint
  unfolding token_endpoint
  token_endpoint-IsEndpoint prefix provider endpoint e =
      elim (Bool-cases provider.open_id_connect) [
        | inr b ↦ inr (inl b, sym (ok-injective _ _ (rw b at e)))
        | inl b ↦ elim (Bool-cases (provider.id == "facebook")) [
          | inl q ↦ inr (inr ((eq_iff _ _).0 q), sym (ok-injective _ _ (rw (b, q) at e)))
          | inr q ↦ elim (Result-cases (get_meta provider.id)) [
            | inr (m, e1) ↦ absurd (err-ne-ok m endpoint (rw (b, q, e1) at e))
            | inl (meta, e1) ↦ inl (
              b,
              λ same. ground (arith, eq_iff provider.id "facebook", same, q),
              meta,
              e1,
              sym (ok-injective _ _ (rw (b, q, e1) at e)),
            )
          ]
        ]
      ]

  -- The answer of the provider's token endpoint to the code of the request and the secrets that
  -- belong to it: the client's, and the PKCE verifier of the login state.
  abbrev pub IsAnswered : Request → OAuth2Provider → Token → String → OAuth2TokenResponse → Type 0
  IsAnswered r provider auth_req endpoint reply =
      IsEndpoint provider endpoint
      × (accepted (
            post endpoint (
              ("code", form_get "code" r)
              ∷ ("client_id", provider.client_id)
              ∷ ("client_secret", provider.client_secret)
              ∷ ("redirect_uri", ("https://" ⧺ r.host) ⧺ "/callback")
              ∷ ("grant_type", "authorization_code")
              ∷ ("code_verifier", claim_from_token p "pkce_code_verifier" auth_req)
              ∷ []))
          ≡ ok reply)

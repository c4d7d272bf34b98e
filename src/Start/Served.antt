-- ===== src/Start/Served.antt =====
-- The addresses that the server publishes are addresses that it answers.
use obligator.Base.{◌≡◌, refl, String, ◌⧺◌, none, some, List, [], ◌∷◌, All}
use obligator.Pages.{OAuth2ServerMetadata, Json, fed_cm_config, provider_urls}
use obligator.Oidc.Endpoints.{server_metadata}
use obligator.IndieAuth.{indie_metadata}
use obligator.FedCm.{identity_document, config_document}
use obligator.Utils.CookieDomain.{domain_to_uri}
use obligator.Start.Routes.{
  Endpoint, auth, token, userinfo, jwks, register, end_session, indie_login, indie_token, accounts,
  id_assertion, login_fed_cm_auto, fed_cm_config as config_file, route,
}

-- An address on a server whose path reaches an endpoint.
pub record IsServed (uri address : String) (e : Endpoint) : Type 0 where
  pub path : String
  pub placed : address ≡ uri ⧺ path
  pub reached : route path ≡ some e

abbrev pub AreServed : String → List (String × Endpoint) → Type 0
AreServed uri = All (λ (entry : String × Endpoint). IsServed uri entry.0 entry.1)

-- The addresses of the documents, each with the endpoint that a client expects there.
abbrev pub of_provider : OAuth2ServerMetadata → List (String × Endpoint)
of_provider m =
    (m.authorization_endpoint, auth)
    ∷ (m.token_endpoint, token)
    ∷ (m.userinfo_endpoint, userinfo)
    ∷ (m.jwks_uri, jwks)
    ∷ (m.registration_endpoint, register)
    ∷ (m.end_session_endpoint, end_session)
    ∷ []

abbrev pub of_indie_auth : OAuth2ServerMetadata → List (String × Endpoint)
of_indie_auth m = (m.authorization_endpoint, indie_login) ∷ (m.token_endpoint, indie_token) ∷ []

abbrev pub of_fed_cm : Json → List (String × Endpoint)
of_fed_cm (provider_urls (uri ∷ more)) = (uri, config_file) ∷ []
of_fed_cm (fed_cm_config listed assertion login types) =
    (listed, accounts) ∷ (assertion, id_assertion) ∷ (login, login_fed_cm_auto) ∷ []
of_fed_cm _ = []

IsServed-at : (uri path : String) (e : Endpoint) → route path ≡ some e → IsServed uri (uri ⧺ path) e
IsServed-at uri path e reached = record { path = path; placed = refl; reached = reached }

-- Of every host, each address in the discovery document, in IndieAuth's document and in the
-- documents of FedCM reaches the endpoint that it is published for, through the server's
-- multiplexer and the handler's own; only the introspection endpoint of IndieAuth's document
-- reaches nothing.
pub published-AreServed :
    (host : String)
    → let uri = domain_to_uri host in
      AreServed uri (of_provider (server_metadata uri))
      × AreServed uri (of_indie_auth (indie_metadata uri "/indieauth"))
      × AreServed uri (of_fed_cm (identity_document uri))
      × AreServed uri (of_fed_cm (config_document uri "/login-fedcm-auto"))
      × (path : String) × ((indie_metadata uri "/indieauth").introspection_endpoint ≡ uri ⧺ path)
      × (route path ≡ none)
unfolding route server_metadata indie_metadata identity_document config_document
published-AreServed host =
    let uri = domain_to_uri host in
    (
      (
        IsServed-at uri "/auth" auth refl,
        (
          IsServed-at uri "/token" token refl,
          (
            IsServed-at uri "/userinfo" userinfo refl,
            (
              IsServed-at uri "/jwks" jwks refl,
              (
                IsServed-at uri "/register" register refl,
                (IsServed-at uri "/end-session" end_session refl, tt),
              ),
            ),
          ),
        ),
      ),
      (
        IsServed-at uri "/indieauth/auth" indie_login refl,
        (IsServed-at uri "/indieauth/token" indie_token refl, tt),
      ),
      (IsServed-at uri "/fedcm/config.json" config_file refl, tt),
      (
        IsServed-at uri "/fedcm/accounts" accounts refl,
        (
          IsServed-at uri "/fedcm/id-assertion" id_assertion refl,
          (IsServed-at uri "/login-fedcm-auto" login_fed_cm_auto refl, tt),
        ),
      ),
      "/indieauth/introspect",
      refl,
      refl,
    )

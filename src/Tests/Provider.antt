-- ===== src/Tests/Provider.antt =====
-- The theorem on the login at another provider at a concrete input.
use obligator.Base.{◌≡◌, String, Bool, Result, ok, err, List, [], ◌∷◌, ◌⊎◌}
use obligator.Types.{Request, str}
use obligator.Pages.{OAuth2ServerMetadata, OAuth2TokenResponse}
use obligator.Handler.After.{final}
use obligator.Http.{World}
use obligator.Oidc.Endpoints.{server_metadata}
use obligator.Upstream.{Reply, callback}
use obligator.Upstream.Vouched.{IsVouched, callback-IsVouched}
use obligator.Tests.Toy.{toy, Token}
use obligator.Tests.Data.{provider, request, store, world}

abbrev table : List (String × Token)
table =
    ("state", ("provider_id", str "idp") ∷ ("nonce", str "n") ∷ [])
    ∷ ("id", ("nonce", str "n") ∷ ("email", str "ann@example.com") ∷ [])
    ∷ []

abbrev metadata : String → Result OAuth2ServerMetadata
metadata id = ok (server_metadata "https://idp.example.com")

abbrev keyset : String → Result (Unit {0})
keyset id = ok tt

abbrev answer : String → List (String × String) → Reply OAuth2TokenResponse
answer url form = ok (
  200,
  ok (record { access_token = "a"; token_type = "bearer"; expires_in = 60; id_token = "id" }),
)

abbrev no_emails : String → Reply (List (String × Bool))
no_emails token = err "unreachable"

abbrev returning : Request
returning =
    request (("code", "c" ∷ []) ∷ []) []
      (("obligator_upstream_oauth2_request", "state") ∷ ("obligator_return_uri", "/login") ∷ [])

abbrev known : World (toy table)
known = record (world table) { db = record store { oauth2_providers = provider "idp" ∷ [] } }

callback-IsVouched_example :
    ((final (
        callback
          (toy table)
          "obligator_"
          metadata
          keyset
          answer
          no_emails
          50
          returning
          known)).w.cookies
      ≡ [])
    ⊎ IsVouched (toy table) "obligator_" metadata keyset answer no_emails 50 returning known
callback-IsVouched_example =
    callback-IsVouched (toy table) "obligator_" metadata keyset answer no_emails 50 returning known

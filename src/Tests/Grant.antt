-- ===== src/Tests/Grant.antt =====
-- The theorems on IndieAuth, from /confirm to /token, at concrete inputs.
use obligator.Base.{◌⊎◌, refl, String, List, [], ◌∷◌, text_ne, arith}
use obligator.Types.{identities, time, str, Request}
use obligator.Utils.Cookies.{cross_site_detector}
use obligator.IndieAuth.{confirm}
use obligator.IndieAuth.Granted.{IsCoded, IsGranted, RefusesLater, timed_claims, confirm-IsGranted}
use obligator.IndieAuth.Redeem.{IsExchanged, handle_token-IsExchanged}
use obligator.Tests.Toy.{toy, toy_laws, Token}
use obligator.Tests.Data.{ann, store, request, world}

abbrev auth_req : Token
auth_req =
    ("iat", time 200)
    ∷ ("client_id", str "https://app.example.com")
    ∷ ("redirect_uri", str "https://app.example.com/callback")
    ∷ ("pkce_code_challenge", str "verifier")
    ∷ []

abbrev code : Token
code = timed_claims 16 "id.example.com" "ann@example.com" "verifier" 210

abbrev table : List (String × Token)
table =
    ("request", auth_req)
    ∷ ("code", code)
    ∷ ("session", ("identities", identities (ann ∷ [])) ∷ ("iat", time 100) ∷ [])
    ∷ []

abbrev confirmation : Request
confirmation = request (("identity_id", "ann@example.com" ∷ []) ∷ []) [] (
    ("obligator_login_key", "session")
    ∷ (cross_site_detector, "true")
    ∷ ("obligator_auth_request", "request")
    ∷ [])

abbrev exchange : Request
exchange = request (("code", "code" ∷ []) ∷ ("code_verifier", "verifier" ∷ []) ∷ []) [] []

confirm-IsGranted_example :
    RefusesLater
      (toy table)
      "obligator_"
      "/indieauth"
      (world table)
      (confirm (toy table) "obligator_" "/indieauth" 210 confirmation (world table))
    ⊎ IsGranted (toy table) "obligator_" "/indieauth" 210 confirmation (world table)
confirm-IsGranted_example =
    confirm-IsGranted (toy table) "obligator_" "/indieauth" 210 confirmation (world table)

abbrev coded : IsCoded (toy table) 16 210 "id.example.com" "ann@example.com" "verifier" store "code"
unfolding obligator.Jose.sign_jwt obligator.Jose.get_jwks obligator.Sqlite.sqlite
    native.Mathlib.Decide.ℕ_discrete
coded = record { code_token = code; built = refl; signed = refl }

handle_token-IsExchanged_example :
    IsExchanged
      (toy table)
      (toy_laws table)
      16
      210
      "id.example.com"
      "ann@example.com"
      "verifier"
      "code"
      (world table)
      coded
      220
      exchange
      (world table)
unfolding obligator.Jose.get_public_jwks obligator.Jose.get_jwks obligator.Sqlite.sqlite
handle_token-IsExchanged_example =
    handle_token-IsExchanged (toy table) (toy_laws table) 16 210 "id.example.com" "ann@example.com"
      "verifier" "code" (world table) coded 220 exchange (world table) tt (text_ne "code" "" refl)
      refl refl refl (omega arith)

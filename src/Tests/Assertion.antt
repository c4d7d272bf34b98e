-- ===== src/Tests/Assertion.antt =====
-- The theorem on FedCM at a request that is answered with a code.
use obligator.Base.{◌≡◌, refl, String, Result, ok, List, [], ◌∷◌}
use obligator.Types.{Request, identities, time}
use obligator.Http.{World, add_header, fresh, write}
use obligator.Pages.{json, fed_cm_token}
use obligator.FedCm.{assertion_claims, id_assertion}
use obligator.FedCm.Asserted.{AnswersCode, IsChosen, IsSameOrigin, id_assertion-IsChosen}
use obligator.Tests.Toy.{toy, Token}
use obligator.Tests.Data.{ann, request, store, world}

abbrev table : List (String × Token)
table =
    ("session", ("identities", identities (ann ∷ [])) ∷ ("iat", time 40) ∷ [])
    ∷ ("code", assertion_claims "id.example.com" "ann@example.com" "n" 50)
    ∷ []

abbrev asking : Request
asking =
    request
      (("client_id", "https://app.example.com/" ∷ [])
        ∷ ("account_id", "ann@example.com" ∷ [])
        ∷ ("nonce", "n" ∷ [])
        ∷ [])
      (("Origin", "https://app.example.com/") ∷ ("Sec-Fetch-Dest", "webidentity") ∷ [])
      (("obligator_login_key", "session") ∷ [])

abbrev unmarshal : String → Result String
unmarshal params = ok params

abbrev answered : World (toy table)
answered = record (world table) {
  w =
      write
        (json (fed_cm_token "code" "https://id.example.com/.well-known/oauth-authorization-server"))
        (add_header "Content-Type" "application/json" (
          add_header "Access-Control-Allow-Credentials" "true"
            (add_header "Access-Control-Allow-Origin" "https://app.example.com" fresh)));
}

id_assertion-IsChosen_example :
    IsSameOrigin (toy table) asking
    × (c : IsChosen (toy table) unmarshal 50 asking store) × AnswersCode
        (toy table)
        asking
        c.code
        (world table)
        answered
unfolding id_assertion obligator.Base.split obligator.FedCm.choose_identity
    obligator.FedCm.challenge_of obligator.Utils.Cookies.get_identities_fed_cm
    obligator.Utils.Cookies.login_key_name obligator.Sqlite.sqlite
    obligator.Utils.Cookies.get_identities_common obligator.Jose.parse_jwt
    obligator.Jose.get_public_jwks obligator.Jose.get_jwks obligator.FedCm.assert_identity
    obligator.Jose.sign_jwt assertion_claims
id_assertion-IsChosen_example =
    id_assertion-IsChosen (toy table) unmarshal 50 asking (world table) answered refl

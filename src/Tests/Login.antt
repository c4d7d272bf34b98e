-- ===== src/Tests/Login.antt =====
-- The theorems on an OpenID Connect login, from /auth to /userinfo, at concrete inputs.
use Prim.Native.String.{String}
use obligator.Base.{
  ◌≡◌, ◌≢◌, ◌⊎◌, ◌↔◌, inl, inr, refl, Bool, true, false, Result, ok, Option, some, none, List,
  text_ne, arith, lookup, [], ◌∷◌,
}
use obligator.Types.{str, time, audience, flag, identities, Request, seconds}
use obligator.Handler.{next}
use obligator.Http.{Refuses, add_cookie, fresh}
use obligator.Jose.{get_public_jwks, sign_jwt, decrypt_jwt, parse_jwt}
use obligator.Utils.Cookies.{
  cross_site_detector, lax_cookie, get_jwt_from_cookie, set_jwt_cookie, claim_from_token,
}
use obligator.Oidc.AuthRequest.{
  OAuth2AuthRequest, parse_auth_request, IsDecided, parse_auth_request-IsDecided,
}
use obligator.Oidc.Auth.{auth_request_claims}
use obligator.Oidc.Auth.Remembered.{Remembers, get_jwt_from_cookie-set_jwt_cookie}
use obligator.Oidc.Pkce.{check_verifier, Fits, check_verifier_iff, generate_pkce_code_challenge}
use obligator.Oidc.Token.{token, token_reply, Exchanges, access_claims, token-Exchanges}
use obligator.Oidc.Approve.{id_token_claims, make_code, code_claims}
use obligator.Oidc.Approve.Consent.{lookup-id_token_claims}
use obligator.Oidc.Approve.Made.{issued_claims}
use obligator.Oidc.Approve.Redeem.{token-make_code, token-make_code_expired}
use obligator.Oidc.Endpoints.{userinfo_handler}
use obligator.Oidc.Endpoints.Userinfo.{userinfo_reply, bearer}
use obligator.Oidc.Approve.Flow.{userinfo_handler-token}
use obligator.Tests.Toy.{toy, toy_laws, Token}
use obligator.Tests.Data.{ann, store, request, world}

-- What a client asks /auth for.
abbrev asked : Request
asked =
    request
      (("client_id", "https://app.example.com" ∷ [])
        ∷ ("redirect_uri", "https://app.example.com/callback" ∷ [])
        ∷ ("state", "s" ∷ [])
        ∷ ("scope", "openid email" ∷ [])
        ∷ ("nonce", "n" ∷ [])
        ∷ ("code_challenge", "verifier" ∷ [])
        ∷ ("response_type", "code" ∷ [])
        ∷ [])
      [] []

abbrev ar : OAuth2AuthRequest
ar = record {
  client_id = "https://app.example.com";
  redirect_uri = "https://app.example.com/callback";
  scope = "openid email";
  state = "s";
  response_type = "code";
  code_challenge = "verifier";
}

-- The token of the authorization request.
abbrev auth_req : Token
auth_req = auth_request_claims ar asked 200

abbrev id_token : Token
id_token =
    id_token_claims ann "ann@example.com" "https://app.example.com" "https://id.example.com" 210 "n"
      "openid email" "normal"

abbrev code : Token
code = code_claims "ann@example.com" "id" "verifier" 210

abbrev access : Token
access = access_claims "ann@example.com" 220

abbrev table : List (String × Token)
table =
    ("request", auth_req)
    ∷ ("id", id_token)
    ∷ ("code", code)
    ∷ ("access", access)
    ∷ ("session", ("identities", identities (ann ∷ [])) ∷ ("iat", time 100) ∷ [])
    ∷ []

-- The browser's request to /approve.
abbrev approval : Request
approval = request (("identity_id", "ann@example.com" ∷ []) ∷ []) [] (
    ("obligator_login_key", "session")
    ∷ (cross_site_detector, "true")
    ∷ ("obligator_auth_request", "request")
    ∷ [])

-- The client's request to /token.
abbrev exchange : Request
exchange = request (("code", "code" ∷ []) ∷ ("code_verifier", "verifier" ∷ []) ∷ []) [] []

parse_auth_request-IsDecided_example :
    IsDecided (toy table) asked (world table) (parse_auth_request (toy table) asked (world table))
parse_auth_request-IsDecided_example = parse_auth_request-IsDecided (toy table) asked (world table)

get_jwt_from_cookie-set_jwt_cookie_example :
    (set_jwt_cookie (toy table) "id.example.com" auth_req "obligator_auth_request" 480 (world table)
      ≡ next tt (record (world table) {
        w =
            add_cookie
              (lax_cookie
                (toy table)
                "example.com"
                "obligator_auth_request"
                "request"
                (seconds 480))
              fresh;
      }))
    × (get_jwt_from_cookie (toy table) 210 store "obligator_auth_request" approval ≡ ok auth_req)
    × Remembers (toy table) ar asked auth_req
unfolding sign_jwt obligator.Jose.get_jwks obligator.Sqlite.sqlite auth_request_claims
    native.Mathlib.Decide.ℕ_discrete obligator.Oidc.Auth.flow_type get_public_jwks
    obligator.Utils.CookieDomain.build_cookie_domain obligator.Base.split obligator.Base.join
get_jwt_from_cookie-set_jwt_cookie_example =
    get_jwt_from_cookie-set_jwt_cookie (toy table) (toy_laws table) ar asked 200 auth_req 210
      "id.example.com" "obligator_auth_request" "request" "example.com" tt (world table) approval
      refl refl (text_ne "request" "" refl) refl refl refl (omega arith) (omega arith)

check_verifier_iff_example :
    (check_verifier (toy []) (some (str "verifier")) "verifier" ≡ ok tt)
    ↔ Fits (toy []) (some (str "verifier")) "verifier"
check_verifier_iff_example = check_verifier_iff (toy []) (some (str "verifier")) "verifier"

token-Exchanges_example :
    Refuses (world table) (token (toy table) 220 exchange (world table))
    ⊎ ((signed_access : String) × (id : String) × Exchanges
          (toy table)
          220
          exchange
          (world table)
          id
          signed_access
        × (token (toy table) 220 exchange (world table)
            ≡ next tt (record (world table) { w = token_reply signed_access id fresh })))
token-Exchanges_example = token-Exchanges (toy table) 220 exchange (world table)

lookup-id_token_claims_example :
    let cs = id_token in
    (lookup "sub" cs ≡ some (str "ann@example.com"))
    × (lookup "aud" cs ≡ some (audience ("https://app.example.com" ∷ [])))
    × (lookup "iss" cs ≡ some (str "https://id.example.com"))
    × (lookup "nonce" cs ≡ some (str "n"))
    × (lookup "exp" cs ≡ some (time 86610))
    × (lookup "email" cs ≡ some (str "ann@example.com"))
    × (lookup "email_verified" cs ≡ some (flag true))
    × (lookup "name" cs ≡ none)
unfolding obligator.Base.split
lookup-id_token_claims_example =
    lookup-id_token_claims ann "ann@example.com" "https://app.example.com" "https://id.example.com"
      210 "n" "openid email" "normal"

token-make_code_example :
    (t : Token) × (signed : String) × (ok
        (issued_claims (toy table) 210 approval auth_req ann "ann@example.com")
      ≡ ok t)
    × (sign_jwt (toy table) store t ≡ ok signed)
    × (token (toy table) 220 exchange (world table)
        ≡ next tt (record (world table) { w = token_reply "access" signed fresh }))
unfolding make_code obligator.Jose.sign_and_encrypt_jwt obligator.Jose.get_jwks
    obligator.Sqlite.sqlite auth_request_claims id_token_claims claim_from_token
    obligator.Utils.CookieDomain.domain_to_uri native.Mathlib.Decide.ℕ_discrete obligator.Base.split
    sign_jwt get_public_jwks generate_pkce_code_challenge
token-make_code_example =
    token-make_code (toy table) (toy_laws table) 210 220 approval exchange auth_req ann
      "ann@example.com" "code" (world table) (world table) (world table) tt access "access" refl
      (text_ne "code" "" refl) refl refl refl (inr (refl, text_ne "verifier" "" refl)) (omega arith)
      (omega arith) refl refl

token-make_code_expired_example :
    Refuses (world table) (token (toy table) 226 exchange (world table))
unfolding make_code obligator.Jose.sign_and_encrypt_jwt obligator.Jose.get_jwks
    obligator.Sqlite.sqlite auth_request_claims id_token_claims claim_from_token
    obligator.Utils.CookieDomain.domain_to_uri native.Mathlib.Decide.ℕ_discrete obligator.Base.split
    sign_jwt
token-make_code_expired_example =
    token-make_code_expired (toy table) (toy_laws table) 210 226 approval exchange auth_req ann
      "ann@example.com" "code" (world table) (world table) (world table) refl
      (text_ne "code" "" refl) refl refl (omega arith)

abbrev bearing : Request
bearing = request [] (("Authorization", bearer "access") ∷ []) []

userinfo_handler-token_example :
    ((signed : String) × (token (toy table) 220 exchange (world table)
        ≡ next tt (record (world table) { w = token_reply "access" signed fresh })))
    × (userinfo_handler (toy table) 230 bearing (world table)
        ≡ next tt (record (world table) { w = userinfo_reply "ann@example.com" fresh }))
unfolding make_code obligator.Jose.sign_and_encrypt_jwt obligator.Jose.get_jwks
    obligator.Sqlite.sqlite auth_request_claims id_token_claims claim_from_token
    obligator.Utils.CookieDomain.domain_to_uri native.Mathlib.Decide.ℕ_discrete obligator.Base.split
    sign_jwt get_public_jwks generate_pkce_code_challenge
userinfo_handler-token_example =
    userinfo_handler-token (toy table) (toy_laws table) 210 220 230 approval exchange bearing
      auth_req ann "ann@example.com" "code" (world table) (world table) (world table) (world table)
      tt access "access" refl (text_ne "code" "" refl) refl refl refl refl
      (inr (refl, text_ne "verifier" "" refl)) (omega arith) (omega arith) refl refl
      (text_ne "access" "" refl)
      (omega arith, (omega arith, (omega arith, (omega arith, (omega arith, (omega arith, tt))))))
      refl (omega arith) (omega arith)

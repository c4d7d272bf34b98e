-- ===== src/Tests/Wildcard.antt =====
-- A request to /approve with a wildcard text for an address without '*'.
use obligator.Base.{◌≡◌, refl, String, List, [], ◌∷◌, text_ne, arith}
use obligator.Types.{Request, identities, logins, str, time, lax_mode}
use obligator.Handler.{panic}
use obligator.Http.{World, fresh, add_cookie}
use obligator.Utils.Cookies.{cross_site_detector}
use obligator.Utils.LoginCookie.{login_cookie}
use obligator.Oidc.Approve.{approve_identity}
use obligator.Oidc.Approve.Wildcard.{approve_identity_panics}
use obligator.Tests.Toy.{toy, Token}
use obligator.Tests.Data.{ann, login_of_ann, request, world}

abbrev session : Token
session = ("identities", identities (ann ∷ [])) ∷ ("iat", time 100) ∷ []

abbrev auth_req : Token
auth_req = ("client_id", str "https://app.example.com") ∷ []

abbrev table : List (String × Token)
table =
    ("session", session)
    ∷ (
      "recorded",
      (
        "logins",
        logins (("https://app.example.com", login_of_ann "2024-01-01T00:00:00Z" ∷ []) ∷ []),
      )
          ∷ ("nonce", str "00000000000000000000000000000000")
          ∷ ("iat", time 210)
          ∷ session,
    )
    ∷ []

abbrev approval : Request
approval =
    request (("email-wildcard", "x" ∷ []) ∷ []) []
      (("obligator_login_key", "session") ∷ (cross_site_detector, "true") ∷ [])

abbrev recorded : World (toy table)
recorded = record (world table) {
  w = add_cookie (login_cookie "example.com" "obligator_login_key" "recorded" lax_mode) fresh;
}

approve_identity_panics_example :
    approve_identity (toy table) "obligator_" 210 approval auth_req ann (world table)
    ≡ panic recorded
unfolding obligator.Oidc.Approve.record_login obligator.Utils.LoginCookie.add_login_to_cookie
    obligator.Utils.Cookies.login_key_name obligator.Sqlite.sqlite
    obligator.Utils.Cookies.get_login_cookie obligator.Utils.LoginCookie.seal_token
    obligator.Utils.Random.gen_random_key obligator.Utils.Random.gen_random obligator.Jose.sign_jwt
    obligator.Jose.get_jwks obligator.Utils.CookieDomain.build_cookie_domain obligator.Base.split
    obligator.Base.join obligator.Utils.LoginCookie.merge_client_logins
    obligator.Utils.LoginCookie.current_token obligator.Jose.parse_jwt
    obligator.Jose.get_public_jwks obligator.Utils.LoginCookie.merge_logins
    obligator.Utils.Random.char_text obligator.Utils.Cookies.claim_from_token
approve_identity_panics_example =
    approve_identity_panics (toy table) "obligator_" 210 approval auth_req ann (world table)
      recorded (text_ne "x" "" refl)
      (
        omega arith,
        (
          omega arith,
          (
            omega arith,
            (
              omega arith,
              (
                omega arith,
                (
                  omega arith,
                  (
                    omega arith,
                    (
                      omega arith,
                      (
                        omega arith,
                        (
                          omega arith,
                          (
                            omega arith,
                            (omega arith, (omega arith, (omega arith, (omega arith, tt)))),
                          ),
                        ),
                      ),
                    ),
                  ),
                ),
              ),
            ),
          ),
        ),
      )
      refl

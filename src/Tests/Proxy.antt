-- ===== src/Tests/Proxy.antt =====
-- The theorems on validation and forwarding at a request of a logged-in user.
use obligator.Base.{◌≡◌, refl, some, arith, String, false, List, [], ◌∷◌, text_ne}
use obligator.Types.{identities, str, time, none_mode, Request}
use obligator.Http.{Action, respond, write, header_get}
use obligator.Pages.{text}
use obligator.Utils.Cookies.{cross_site_detector}
use obligator.Utils.LoginCookie.{login_cookie}
use obligator.Server.LoggedIn.{validation_of, serve_http-add_ident_to_cookie}
use obligator.Server.Mux.{Forwards, serve_http-Forwards, serve_http, with_identity}
use obligator.Tests.Toy.{toy, toy_laws, Token}
use obligator.Tests.Data.{ann, request, world}

abbrev table : List (String × Token)
table = ("signed", ("identities", identities (ann ∷ [])) ∷ ("iat", time 100) ∷ []) ∷ []

-- The client claims to be someone else.
abbrev forged : Request
forged =
    request [] (("Remote-Id", "bob@example.com") ∷ [])
      (("obligator_login_key", "signed") ∷ (cross_site_detector, "true") ∷ [])

abbrev app : Request → Action (toy table) (Unit {0})
app r = respond (write (text "app"))

serve_http-Forwards_example :
    Forwards (toy table) false (("id.example.com", app) ∷ []) app 120 app forged (world table)
serve_http-Forwards_example =
    serve_http-Forwards (toy table) false (("id.example.com", app) ∷ []) app 120 app forged
      (world table) (text_ne "id.example.com" "lastlogin.io" refl) refl

-- A browser that has just logged in.
abbrev session_of_ann : Token
session_of_ann =
    ("identities", identities (ann ∷ []))
    ∷ ("nonce", str "00000000000000000000000000000000")
    ∷ ("iat", time 100)
    ∷ []

abbrev signed : List (String × Token)
signed = ("signed", session_of_ann) ∷ []

abbrev inside : Request → Action (toy signed) (Unit {0})
inside r = respond (write (text "app"))

serve_http-add_ident_to_cookie_example :
    (serve_http
        (toy signed)
        false
        (("id.example.com", inside) ∷ [])
        inside
        120
        forged
        (world signed)
      ≡ inside (with_identity (some (validation_of ann)) forged) (world signed))
    × (header_get "Remote-Id" (with_identity (some (validation_of ann)) forged) ≡ "ann@example.com")
    × (header_get "Remote-Id-Type" (with_identity (some (validation_of ann)) forged) ≡ "email")
unfolding obligator.Utils.LoginCookie.add_ident_to_cookie obligator.Utils.LoginCookie.seal_token
    obligator.Utils.Random.gen_random_key obligator.Utils.Random.gen_random obligator.Jose.sign_jwt
    obligator.Jose.get_jwks obligator.Sqlite.sqlite obligator.Utils.CookieDomain.build_cookie_domain
    obligator.Base.split obligator.Utils.Cookies.login_key_name obligator.Base.join
    obligator.Utils.LoginCookie.merge_identities obligator.Utils.LoginCookie.current_token
    obligator.Utils.Random.char_text obligator.Jose.get_public_jwks
    obligator.Sqlite.get_forward_auth_passthrough
serve_http-add_ident_to_cookie_example =
    serve_http-add_ident_to_cookie (toy signed) (toy_laws signed) false
      (("id.example.com", inside) ∷ []) inside 100 120 "id.example.com" "" ann []
      (login_cookie "example.com" "obligator_login_key" "signed" none_mode) [] tt forged "true"
      false (world signed) inside refl (text_ne "signed" "" refl) refl (refl, refl) refl refl refl
      (omega arith) (text_ne "id.example.com" "lastlogin.io" refl) refl

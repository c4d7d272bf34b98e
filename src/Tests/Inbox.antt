-- ===== src/Tests/Inbox.antt =====
-- The theorem on the login by a mail's link at a concrete input.
use obligator.Base.{◌≡◌, refl, String, false, ok, List, [], ◌∷◌, text_ne, arith}
use obligator.Types.{Cookie, PendingLogin, Request, identities, str, time, none_mode}
use obligator.Handler.After.{final}
use obligator.Http.{World}
use obligator.Cluster.{Cluster}
use obligator.Utils.Cookies.{get_identities, cross_site_detector}
use obligator.Utils.LoginCookie.{login_cookie}
use obligator.Utils.CookieDomain.{domain_to_uri}
use obligator.Email.{magic_link_of}
use obligator.Email.Magic.{complete_email_login}
use obligator.Email.Registered.{IsRegistered}
use obligator.Email.LoggedIn.{Extends, complete_email_login-IsRegistered}
use obligator.Tests.Toy.{toy, toy_laws, Token}
use obligator.Tests.Data.{ann, store, request, world}

abbrev cluster : Cluster
cluster = record { on_fly = false; local_id = "1" }

abbrev session_of_ann : Token
session_of_ann =
    ("identities", identities (ann ∷ []))
    ∷ ("nonce", str "00000000000000000000000000000000")
    ∷ ("iat", time 100)
    ∷ []

abbrev table : List (String × Token)
table = ("signed", session_of_ann) ∷ []

abbrev link_key : String
link_key = "0123456789abcdefghijklmnopqrstuv"

abbrev pending_of_ann : PendingLogin
pending_of_ann = record { email = "ann@example.com"; expires_at = 350; remote_ip = "10.0.0.1" }

abbrev waiting : World (toy table)
waiting = record (world table) { pending_logins = (link_key, pending_of_ann) ∷ [] }

abbrev asking : Request
asking = request (("email", "ann@example.com" ∷ []) ∷ []) [] []

abbrev form : Request
form =
    request
      (("magic_link_key", link_key ∷ []) ∷ ("instance_id", "1" ∷ []) ∷ ("name", "Ann" ∷ []) ∷ []) []
      []

abbrev visit : Request
visit = request [] [] (("obligator_login_key", "signed") ∷ (cross_site_detector, "true") ∷ [])

abbrev link : String
link = magic_link_of (domain_to_uri "id.example.com") link_key "1"

abbrev registered :
    IsRegistered
      (toy table)
      "obligator_"
      false
      cluster
      tt
      tt
      50
      asking
      "ann@example.com"
      link
      waiting
registered = record { key = link_key; remote_ip = "10.0.0.1"; text = refl; pending = refl }

abbrev cookie : Cookie
cookie = login_cookie "example.com" "obligator_login_key" "signed" none_mode

complete_email_login-IsRegistered_example :
    Extends
      (cookie ∷ [])
      (final (complete_email_login (toy table) cluster 100 form waiting)).w.cookies
    × (get_identities (toy table) 120 store visit ≡ ok (ann ∷ []))
unfolding obligator.Utils.LoginCookie.add_ident_to_cookie obligator.Utils.LoginCookie.seal_token
    obligator.Utils.Random.gen_random_key obligator.Utils.Random.gen_random obligator.Jose.sign_jwt
    obligator.Jose.get_jwks obligator.Sqlite.sqlite obligator.Utils.CookieDomain.build_cookie_domain
    obligator.Base.split obligator.Utils.Cookies.login_key_name obligator.Base.join
    obligator.Utils.LoginCookie.merge_identities obligator.Utils.LoginCookie.current_token
    obligator.Utils.Random.char_text obligator.Jose.get_public_jwks
    obligator.Utils.Cookies.get_login_cookie
complete_email_login-IsRegistered_example =
    complete_email_login-IsRegistered (toy table) (toy_laws table) "obligator_" false cluster tt tt
      50 100 120 asking form visit "ann@example.com" link "true" waiting waiting registered cookie
      [] tt refl refl refl refl refl refl (text_ne "signed" "" refl) refl (refl, refl) refl refl
      (omega arith)

-- ===== src/Tests/Received.antt =====
-- The theorem on sharing a session at a concrete input: two identities are shared with a browser
-- that had none.
use obligator.Base.{◌≡◌, refl, String, false, ok, List, [], ◌∷◌, text_ne, arith}
use obligator.Types.{Cookie, Request, identities, str, time, none_mode}
use obligator.Handler.After.{final}
use obligator.Http.{World}
use obligator.Cluster.{Cluster}
use obligator.Utils.Cookies.{get_identities, cross_site_detector}
use obligator.Utils.LoginCookie.{login_cookie}
use obligator.Email.LoggedIn.{Extends}
use obligator.Qr.{receive}
use obligator.Qr.Shared.{share_with, receive-send}
use obligator.Tests.Toy.{toy, toy_laws, Token}
use obligator.Tests.Data.{ann, bob, store, request, world}

abbrev cluster : Cluster
cluster = record { on_fly = false; local_id = "1" }

abbrev no_nonce : String
no_nonce = "00000000000000000000000000000000"

abbrev of_both : Token
of_both = ("identities", identities (ann ∷ bob ∷ [])) ∷ ("iat", time 10) ∷ []

abbrev of_ann : Token
of_ann = ("identities", identities (ann ∷ [])) ∷ ("nonce", str no_nonce) ∷ ("iat", time 100) ∷ []

abbrev of_receiver : Token
of_receiver =
    ("identities", identities (bob ∷ ann ∷ []))
    ∷ ("nonce", str no_nonce)
    ∷ ("iat", time 100)
    ∷ of_ann

abbrev table : List (String × Token)
table = ("both", of_both) ∷ ("one", of_ann) ∷ ("two", of_receiver) ∷ []

abbrev same_site : List (String × String)
same_site = (cross_site_detector, "true") ∷ []

abbrev sending : Request
sending =
    request
      (("instance_id", "1" ∷ [])
        ∷ ("qr_key", "k" ∷ [])
        ∷ ("checkbox_ann@example.com", "on" ∷ [])
        ∷ ("checkbox_bob@example.com", "on" ∷ [])
        ∷ [])
      [] (("obligator_login_key", "both") ∷ same_site)

abbrev receiving : Request
receiving = request (("qr_key", "k" ∷ []) ∷ []) [] []

abbrev visiting : Request
visiting = request [] [] (("obligator_login_key", "two") ∷ same_site)

abbrev shared : World (toy table)
shared = record (world table) { pending_shares = ("k", share_with 90 (ann ∷ bob ∷ [])) ∷ [] }

abbrev cookie_of : String → Cookie
cookie_of value = login_cookie "example.com" "obligator_login_key" value none_mode

receive-send_example :
    Extends
      (cookie_of "two" ∷ [])
      (final (receive (toy table) (λ s. ok s) 100 receiving shared)).w.cookies
    × (get_identities (toy table) 120 store visiting ≡ ok (bob ∷ ann ∷ []))
unfolding obligator.Utils.LoginCookie.add_ident_to_cookie obligator.Utils.LoginCookie.seal_token
    obligator.Utils.Random.gen_random_key obligator.Utils.Random.gen_random obligator.Jose.sign_jwt
    obligator.Jose.get_jwks obligator.Sqlite.sqlite obligator.Utils.CookieDomain.build_cookie_domain
    obligator.Base.split obligator.Utils.Cookies.login_key_name obligator.Base.join
    obligator.Utils.LoginCookie.merge_identities obligator.Utils.LoginCookie.current_token
    obligator.Utils.Random.char_text obligator.Jose.get_public_jwks obligator.Jose.parse_jwt
    obligator.Utils.Cookies.get_login_cookie obligator.Utils.Cookies.get_identities
    obligator.Utils.Cookies.get_identities_common obligator.Utils.Cookies.get_logins
    obligator.Qr.send obligator.Qr.selected obligator.Qr.shared_logins obligator.Http.show_page
receive-send_example =
    receive-send (toy table) (toy_laws table) cluster (λ s. ok s) 90 100 120 sending receiving
      visiting "true" (world table) shared ann (bob ∷ []) (cookie_of "two") [] tt refl refl refl
      refl refl refl (refl, refl)
      (
        cookie_of "one",
        [],
        refl,
        text_ne "one" "" refl,
        (cookie_of "two", [], refl, text_ne "two" "" refl, (refl, refl)),
      )
      refl refl (omega arith)

-- ===== src/Tests/Cookies.antt =====
-- The theorems on cookies and random texts at concrete inputs.
use obligator.Base.{
  ◌≡◌, ◌≢◌, refl, String, true, ok, Option, some, none, List, [], ◌∷◌, text_ne, arith,
}
use obligator.Types.{Identity, Cookie, Request, identities, str, time, none_mode}
use obligator.Jose.{get_jwks, get_public_jwks, sign_jwt}
use obligator.Utils.CookieDomain.{build_cookie_domain}
use obligator.Utils.CookieDomain.Covers.{Covers, build_cookie_domain-Covers}
use obligator.Utils.Random.{
  gen_random, gen_random_key, gen_random_code, generate_pkce_code_verifier, key_chars, code_chars,
  verifier_chars,
}
use obligator.Utils.Random.Shape.{Draws, random_texts-Draws}
use obligator.Utils.Cookies.{get_identities, login_key_name, cross_site_detector}
use obligator.Utils.LoginCookie.{
  add_ident_to_cookie, current_token, login_cookie, merge_identities, merge_client_logins,
  seal_token,
}
use obligator.Utils.LoginCookie.Merge.{time_at, time_at-merge_client_logins}
use obligator.Utils.LoginCookie.Added.{IsAdded, held-add_ident_to_cookie}
use obligator.Tests.Toy.{toy, toy_laws, Token}
use obligator.Tests.Data.{ann, bob, login_of_ann, store, request}

build_cookie_domain-Covers_example :
    (c : String) × (build_cookie_domain "id.example.com" ≡ ok c) × Covers c "id.example.com"
build_cookie_domain-Covers_example = build_cookie_domain-Covers "id.example.com"

random_texts-Draws_example :
    Draws (toy []) 32 key_chars (gen_random_key (toy []) (1 ∷ 2 ∷ []))
    × Draws (toy []) 4 code_chars (gen_random_code (toy []) (1 ∷ 2 ∷ []))
    × Draws (toy []) 64 verifier_chars (generate_pkce_code_verifier (toy []) (1 ∷ 2 ∷ []))
random_texts-Draws_example = random_texts-Draws (toy []) (1 ∷ 2 ∷ [])

abbrev other_ann : Identity
other_ann = record ann { provider_name = "Google" }

time_at-merge_client_logins_example :
    time_at "https://app.example.com" (login_of_ann "") (
      merge_client_logins "https://app.example.com"
        (login_of_ann "2")
        (("https://app.example.com", login_of_ann "1" ∷ []) ∷ []))
    ≡ some "2"
time_at-merge_client_logins_example =
    time_at-merge_client_logins "https://app.example.com" "https://app.example.com"
      (login_of_ann "") (login_of_ann "2") (("https://app.example.com", login_of_ann "1" ∷ []) ∷ [])

abbrev of_bob : Token
of_bob = ("identities", identities (other_ann ∷ bob ∷ [])) ∷ ("iat", time 10) ∷ []

-- The cookie of bob and an earlier ann, after a new login of ann.
abbrev of_both : Token
of_both =
    ("identities", identities (ann ∷ bob ∷ []))
    ∷ ("nonce", str "00000000000000000000000000000000")
    ∷ ("iat", time 100)
    ∷ of_bob

abbrev table : List (String × Token)
table = ("old", of_bob) ∷ ("signed", of_both) ∷ []

abbrev cookie : Cookie
cookie = login_cookie "example.com" "obligator_login_key" "signed" none_mode

abbrev visiting : Request
visiting = request [] [] (("obligator_login_key", "signed") ∷ (cross_site_detector, "true") ∷ [])

held-add_ident_to_cookie_example :
    IsAdded ann (other_ann ∷ bob ∷ []) (get_identities (toy table) 120 store visiting)
unfolding add_ident_to_cookie seal_token gen_random_key gen_random sign_jwt get_jwks
    obligator.Sqlite.sqlite build_cookie_domain obligator.Base.split login_key_name
    obligator.Base.join merge_identities current_token obligator.Utils.Random.char_text
    get_public_jwks obligator.Jose.parse_jwt
held-add_ident_to_cookie_example =
    held-add_ident_to_cookie (toy table) (toy_laws table) 100 120 "id.example.com" store "old" ann
      [] cookie [] tt visiting "true" refl (text_ne "signed" "" refl) refl (refl, refl) refl refl
      (omega arith)

-- ===== src/Oidc/Token.antt =====
-- oidc.go, the handler of /token.
use obligator.Base.{
  ℕ, ◌+◌, ◌≡◌, refl, String, Result, ok, err, Option, none, some, List, [], ◌∷◌, ◌⊎◌, inl, inr,
  arith, Result-cases,
}
use obligator.Types.{Claim, str, time, Request}
use obligator.Pages.{json, token_response}
use obligator.Platform.{Platform}
use obligator.Handler.{◌>>=◌, next}
use obligator.Http.{
  Action, World, Response, form_get, or_fail, Refuses, gets, add_header, respond, write,
}
use obligator.Jose.{parse_jwt, sign_jwt, decrypt_jwt}
use obligator.Oidc.Pkce.{check_verifier, Fits, check_verifier_iff}

abbrev pub str_or : Claim → String → Result String
str_or (str s) m = ok s
str_or _ m = err m

unfoldable pub id_token_text : Option Claim → Result String
id_token_text none = err "Invalid id_token in code"
id_token_text (some claim) = str_or claim "Invalid id_token in code"

id_token_text-cases :
    (o : Option Claim)
    → (id_token_text o ≡ err "Invalid id_token in code")
      ⊎ ((t : String) × (o ≡ some (str t)) × (id_token_text o ≡ ok t))
unfolding id_token_text
id_token_text-cases none = inl refl
id_token_text-cases (some (str t)) = inr (t, refl, refl)
id_token_text-cases (some _) = inl refl

abbrev pub access_claims : String → ℕ → List (String × Claim)
access_claims sub now = ("iat", time now) ∷ ("exp", time (now + 16)) ∷ ("sub", str sub) ∷ []

-- The three headers and the document.
abbrev pub token_reply : String → String → Response → Response
token_reply access_token id_token w =
    write
      (json (
        token_response (record {
          access_token = access_token;
          token_type = "bearer";
          expires_in = 3600;
          id_token = id_token;
        })))
      (add_header "Cache-Control" "no-store" (
        add_header "Content-Type" "application/json;charset=UTF-8"
          (add_header "Access-Control-Allow-Origin" "*" w)))

module _ (p : Platform) where
  open p use {Token, get_claim, build, subject}

  unfoldable pub token : ℕ → Request → Action p (Unit {0})
  token now r = do
    d ← gets (λ s. s.db)
    parsed_code ← or_fail 401 (parse_jwt p now d (form_get "code" r))
    encrypted ← or_fail 401 (id_token_text (get_claim "id_token" parsed_code))
    signed_id_token ← or_fail 500 (decrypt_jwt p d encrypted)
    fits ← or_fail 401 (
        check_verifier p (get_claim "pkce_code_challenge" parsed_code) (form_get "code_verifier" r))
    access ← or_fail 400 (build (access_claims (subject parsed_code) now))
    signed_access ← or_fail 400 (sign_jwt p d access)
    respond (token_reply signed_access signed_id_token)

  -- What a code has to be for the request, and what it is exchanged for.
  pub record Exchanges (now : ℕ) (r : Request) (s : World p) (id_token access_token : String)
      : Type 0 where
    pub code : Token
    pub access : Token
    pub encrypted : String
    pub parsed : parse_jwt p now s.db (form_get "code" r) ≡ ok code
    pub holds : get_claim "id_token" code ≡ some (str encrypted)
    pub decrypted : decrypt_jwt p s.db encrypted ≡ ok id_token
    pub fits : Fits p (get_claim "pkce_code_challenge" code) (form_get "code_verifier" r)
    pub built : build (access_claims (subject code) now) ≡ ok access
    pub signed : sign_jwt p s.db access ≡ ok access_token

  -- /token refuses with an error, or answers with the ID token that was sealed into the code, and
  -- with an access token for the code's subject. Then the code is a token signed by this server
  -- and in time, and the code verifier fits its PKCE challenge.
  pub token-Exchanges :
      (now : ℕ) (r : Request) (s : World p)
      → Refuses s (token now r s)
        ⊎ ((access : String) × (id : String) × Exchanges now r s id access
            × (token now r s ≡ next tt (record s { w = token_reply access id s.w })))
  unfolding token
  token-Exchanges now r s = elim (Result-cases (parse_jwt p now s.db (form_get "code" r))) [
    | inr (m, e1) ↦ inl (401, m, omega arith, rw e1)
    | inl (code, e1) ↦ elim (id_token_text-cases (get_claim "id_token" code)) [
      | inl e2 ↦ inl (401, "Invalid id_token in code", omega arith, rw (e1, e2))
      | inr (encrypted, held, e2) ↦ elim (Result-cases (decrypt_jwt p s.db encrypted)) [
        | inr (m, e3) ↦ inl (500, m, omega arith, rw (e1, e2, e3))
        | inl (id, e3) ↦
            elim (Result-cases (
              check_verifier p (get_claim "pkce_code_challenge" code)
                (form_get "code_verifier" r))) [
                  | inr (m, e4) ↦ inl (401, m, omega arith, rw (e1, e2, e3, e4))
                  | inl (fits, e4) ↦
                      elim (Result-cases (build (access_claims (subject code) now))) [
                        | inr (m, e5) ↦ inl (400, m, omega arith, rw (e1, e2, e3, e4, e5))
                        | inl (access, e5) ↦ elim (Result-cases (sign_jwt p s.db access)) [
                          | inr (m, e6) ↦ inl (400, m, omega arith, rw (e1, e2, e3, e4, e5, e6))
                          | inl (signed, e6) ↦ inr (
                            signed,
                            id,
                            record {
                              code = code;
                              access = access;
                              encrypted = encrypted;
                              parsed = e1;
                              holds = held;
                              decrypted = e3;
                              fits =
                                  (check_verifier_iff p (get_claim "pkce_code_challenge" code)
                                      (form_get "code_verifier" r)).0
                                    e4;
                              built = e5;
                              signed = e6;
                            },
                            rw (e1, e2, e3, e4, e5, e6),
                          )
                        ]
                      ]
                ]
      ]
    ]
  ]

-- ===== src/Upstream/Vouched.antt =====
-- Who is logged in by another provider.
use obligator.Base.{
  ℕ, ◌≡◌, refl, ap, sym, String, ◌⧺◌, Bool, true, false, Result, ok, ok_or, err, Option, none, some,
  List, ◌==◌, eq_iff, Bool-cases, Result-cases, inl, inr, ◌⊎◌,
}
use obligator.Types.{Claim, str, OAuth2Provider, Request}
use obligator.Pages.{text, OAuth2ServerMetadata, OAuth2TokenResponse}
use obligator.Platform.{Platform}
use obligator.Handler.{next}
use obligator.Handler.After.{final}
use obligator.Http.{World, fail_silent, cookie_value, cookies-write, cookies-write_header}
use obligator.Jose.{parse_jwt}
use obligator.Utils.CookieDomain.{domain_to_uri}
use obligator.Utils.Cookies.{claim_from_token, text_of}
use obligator.Upstream.Admitted.{IsAdmitted, admit_if_known-cookies}
use obligator.Upstream.Answered.{IsAnswered, token_endpoint-IsEndpoint}
use obligator.Upstream.{
  Reply, accepted, callback, check_nonce, get_profile, profile_of, token_endpoint, token_request,
}

ok_or-cases :
    (x : Result String) → (x ≡ ok (ok_or "" x)) ⊎ ((m : String) × (x ≡ err m) × (ok_or "" x ≡ ""))
ok_or-cases (ok a) = inl refl
ok_or-cases (err m) = inr (m, refl, refl)

module _ (p : Platform) where
  open p use {Db, db, Token, Keyset, get_claim, jwt_parse}

  module _ (prefix : String) (get_meta : String → Result OAuth2ServerMetadata)
      (get_keyset : String → Result Keyset)
      (post : String → List (String × String) → Reply OAuth2TokenResponse)
      (github_emails : String → Reply (List (String × Bool))) where
    -- An OpenID Connect provider gives an ID token that its keys sign, with the nonce of this
    -- request. Of another provider the address is that of GetProfile, or "" where GetProfile failed.
    abbrev pub VouchesFor : ℕ → OAuth2Provider → Token → OAuth2TokenResponse → String → Type 0
    VouchesFor now provider auth_req reply email =
        ((provider.open_id_connect ≡ true)
          × (keyset : Keyset) × (token : Token) × (get_keyset provider.id ≡ ok keyset)
          × (jwt_parse now keyset reply.id_token ≡ ok token)
          × (get_claim "nonce" token ≡ some (str (claim_from_token p "nonce" auth_req)))
          × (email ≡ text_of (get_claim "email" token)))
        ⊎ ((provider.open_id_connect ≡ false)
            × ((get_profile github_emails provider reply.access_token ≡ ok email)
                ⊎ ((m : String) × (get_profile github_emails provider reply.access_token ≡ err m)
                    × (email ≡ ""))))

    check_nonce-cases :
        (given : Option Claim) (nonce : String)
        → ((n : ℕ) × (check_nonce p prefix get_meta get_keyset post github_emails given nonce
              ≡ inl n))
          ⊎ ((given ≡ some (str nonce))
              × (check_nonce p prefix get_meta get_keyset post github_emails given nonce ≡ inr tt))
    unfolding check_nonce
    check_nonce-cases none nonce = inl (400, refl)
    check_nonce-cases (some (str g)) nonce = elim (Bool-cases (nonce == g)) [
      | inl b ↦ inr (ap (λ x. some (str x)) (sym ((eq_iff nonce g).0 b)), rw (b, check_nonce))
      | inr b ↦ inl (403, rw (b, check_nonce))
    ]
    check_nonce-cases (some _) nonce = inl (400, refl)

    profile_of-cases :
        (now : ℕ) (provider : OAuth2Provider) (auth_req : Token) (reply : OAuth2TokenResponse)
        (s : World p)
        → ((n : ℕ) × (profile_of p prefix get_meta get_keyset post github_emails now provider
                auth_req reply s
              ≡ fail_silent n s))
          ⊎ ((profile : String × String) × VouchesFor now provider auth_req reply profile.0
              × (profile_of p prefix get_meta get_keyset post github_emails now provider auth_req
                    reply s
                  ≡ next profile s))
    unfolding profile_of
    profile_of-cases now provider auth_req reply s = elim (Bool-cases provider.open_id_connect) [
      | inr b ↦ inr (
        (ok_or "" (get_profile github_emails provider reply.access_token), ""),
        inr (b, ok_or-cases (get_profile github_emails provider reply.access_token)),
        rw (profile_of, b),
      )
      | inl b ↦ elim (Result-cases (get_keyset provider.id)) [
        | inr (m, e1) ↦ inl (500, rw (profile_of, b, e1))
        | inl (keyset, e1) ↦ elim (Result-cases (jwt_parse now keyset reply.id_token)) [
          | inr (m, e2) ↦ inl (500, rw (profile_of, b, e1, e2))
          | inl (token, e2) ↦
              elim (check_nonce-cases (get_claim "nonce" token)
                (claim_from_token p "nonce" auth_req)) [
                  | inl (n, e3) ↦ inl (n, rw (profile_of, b, e1, e2, e3))
                  | inr (same, e3) ↦ inr (
                    (text_of (get_claim "email" token), text_of (get_claim "name" token)),
                    inl (b, keyset, token, e1, e2, same, refl),
                    rw (profile_of, b, e1, e2, e3),
                  )
                ]
        ]
      ]
    ]

    pub record IsVouched (now : ℕ) (r : Request) (s : World p) : Type 0 where
      pub value : String
      pub auth_req : Token
      pub provider : OAuth2Provider
      pub reply : OAuth2TokenResponse
      pub email : String
      pub brought : cookie_value (prefix ⧺ "upstream_oauth2_request") r ≡ ok value
      pub parsed : parse_jwt p now s.db value ≡ ok auth_req
      pub asked :
          db.get_oauth2_provider_by_id (claim_from_token p "provider_id" auth_req) s.db
          ≡ ok provider
      pub endpoint : String
      pub answered : IsAnswered p get_meta post r provider auth_req endpoint reply
      pub vouched : VouchesFor now provider auth_req reply email
      pub admitted : IsAdmitted p email s.db

    from_provider :
        (now : ℕ) (r : Request) (s : World p) (value : String) (auth_req : Token)
        (provider : OAuth2Provider)
        → cookie_value (prefix ⧺ "upstream_oauth2_request") r ≡ ok value
        → parse_jwt p now s.db value ≡ ok auth_req
        → db.get_oauth2_provider_by_id (claim_from_token p "provider_id" auth_req) s.db
          ≡ ok provider
        → ((final (callback p prefix get_meta get_keyset post github_emails now r s)).w.cookies
            ≡ s.w.cookies)
          ⊎ IsVouched now r s
    unfolding callback domain_to_uri
    from_provider now r s value auth_req provider e1 e2 e3 =
        elim (Result-cases (token_endpoint p prefix get_meta provider)) [
          | inr (m, e4) ↦ inl (rw (e1, e2, e3, e4, callback) (cookies-write (text m) 500 s.w))
          | inl (endpoint, e4) ↦
              elim (Result-cases
                (accepted (post endpoint (token_request p prefix get_meta provider r auth_req)))) [
                  | inr (m, e5) ↦
                      inl (rw (e1, e2, e3, e4, e5, callback) (cookies-write_header 500 s.w))
                  | inl (reply, e5) ↦ elim (profile_of-cases now provider auth_req reply s) [
                    | inl (n, e6) ↦
                        inl (rw (e1, e2, e3, e4, e5, e6, callback) (cookies-write_header n s.w))
                    | inr (profile, vouched, e6) ↦
                        elim (admit_if_known-cookies p prefix get_meta get_keyset post github_emails
                          now r provider profile s) [
                            | inl kept ↦ inl (rw (e1, e2, e3, e4, e5, e6, callback) kept)
                            | inr admitted ↦ inr (record {
                              value = value;
                              auth_req = auth_req;
                              provider = provider;
                              reply = reply;
                              email = profile.0;
                              brought = e1;
                              parsed = e2;
                              asked = e3;
                              endpoint = endpoint;
                              answered = (
                                token_endpoint-IsEndpoint p get_meta post prefix provider endpoint
                                    e4,
                                e5,
                              );
                              vouched = vouched;
                              admitted = admitted;
                            })
                          ]
                  ]
                ]
        ]

    -- /callback sets no cookie, unless the request brings its own signed login state, the token
    -- endpoint of the provider of that state has accepted the request's code together with the
    -- client's secret and the PKCE verifier of the state, and the address that follows is a known
    -- user's or the server is public. For an OpenID Connect provider the address is that of an ID
    -- token in the answer, which the provider's keys sign and which has the nonce of the state. For
    -- another provider it is what GetProfile gives for the answer's access token, and "" where
    -- GetProfile failed.
    pub callback-IsVouched :
        (now : ℕ) (r : Request) (s : World p)
        → ((final (callback p prefix get_meta get_keyset post github_emails now r s)).w.cookies
            ≡ s.w.cookies)
          ⊎ IsVouched now r s
    unfolding callback
    callback-IsVouched now r s =
        elim (Result-cases (cookie_value (prefix ⧺ "upstream_oauth2_request") r)) [
          | inr (m, e1) ↦ inl (rw (e1, callback) (cookies-write (text m) 500 s.w))
          | inl (value, e1) ↦ elim (Result-cases (parse_jwt p now s.db value)) [
            | inr (m, e2) ↦ inl (rw (e1, e2, callback) (cookies-write (text m) 500 s.w))
            | inl (auth_req, e2) ↦
                elim (Result-cases
                  (db.get_oauth2_provider_by_id (claim_from_token p "provider_id" auth_req) s.db)) [
                    | inr (m, e3) ↦ inl (rw (e1, e2, e3, callback) (cookies-write (text m) 500 s.w))
                    | inl (provider, e3) ↦ from_provider now r s value auth_req provider e1 e2 e3
                  ]
          ]
        ]

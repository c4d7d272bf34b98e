-- ===== src/Oidc/Approve/Flow.antt =====
-- From the approval to /userinfo.
use obligator.Base.{ℕ, ◌+◌, ◌<◌, ◌≤◌, ◌≡◌, ◌≢◌, String, ok, some, Without}
use obligator.Types.{str, Identity, Request}
use obligator.Platform.{Platform}
use obligator.JwtLaws.{JwtLaws}
use obligator.Handler.{next}
use obligator.Http.{World, form_get, header_get}
use obligator.Jose.{get_public_jwks, sign_jwt}
use obligator.Utils.Cookies.{claim_from_token}
use obligator.Oidc.Pkce.{Fits}
use obligator.Oidc.Token.{token, token_reply, access_claims}
use obligator.Oidc.Endpoints.{userinfo_handler}
use obligator.Oidc.Endpoints.Userinfo.{bearer, userinfo_reply, userinfo_handler-access_claims}
use obligator.Oidc.Approve.{make_code}
use obligator.Oidc.Approve.Made.{granted_subject}
use obligator.Oidc.Approve.Redeem.{token-make_code}

module _ (p : Platform) (laws : JwtLaws p) where
  open p use {Token, Keyset, build}

  -- The code flow comes to its end: a client that brings the code of an approval to /token within
  -- 16 seconds, with the verifier of its challenge, is given an access token, and when it brings
  -- that one to /userinfo within another 16 seconds it is told the approved address, or "" where the
  -- scope did not ask for it. The keys and the settings stay the same, the access token is built and
  -- signed without an error, and a signed token has no space.
  pub userinfo_handler-token :
      (now later last : ℕ) (r r' r'' : Request) (t : Token) (i : Identity) (id code : String)
      (s s1 s' s'' : World p) (public : Keyset) (access : Token) (signed_access : String)
      → make_code p now r t i id s ≡ next code s1
      → code ≢ ""
      → get_public_jwks p s.db ≡ ok public
      → s'.db ≡ s.db
      → s''.db ≡ s.db
      → form_get "code" r' ≡ code
      → Fits p
          (some (str (claim_from_token p "pkce_code_challenge" t)))
          (form_get "code_verifier" r')
      → now ≤ later
      → later < now + 16
      → build (access_claims (granted_subject p t id) later) ≡ ok access
      → sign_jwt p s.db access ≡ ok signed_access
      → signed_access ≢ ""
      → Without b' ' signed_access
      → header_get "Authorization" r'' ≡ bearer signed_access
      → later ≤ last
      → last < later + 16
      → ((signed : String) × (token p later r' s'
            ≡ next tt (record s' { w = token_reply signed_access signed s'.w })))
        × (userinfo_handler p last r'' s''
            ≡ next tt (record s'' { w = userinfo_reply (granted_subject p t id) s''.w }))
  userinfo_handler-token now later last r r' r'' t i id code s s1 s' s'' public access signed_access
        e n k same same' c fits le lt b1 b2 filled spaceless brought le' lt' =
      let (id_token, signed, built, by_key, answer) =
        token-make_code p laws now later r r' t i id code s s1 s' public access signed_access e n k
          same c fits le lt b1 b2 in
      (
        (signed, answer),
        userinfo_handler-access_claims p laws later last (granted_subject p t id) signed_access
            access public s'' r'' b1 (rw same' b2) filled spaceless (rw same' k) brought le' lt',
      )

-- ===== src/Oidc/Approve/Consent.antt =====
-- Who may approve, and what an approval tells the client.
use obligator.Base.{
  ℕ, ◌+◌, ◌≡◌, refl, String, not, ◌&&◌, ok, none, some, List, [], ◌∷◌, ◌==◌, if◌then◌else◌, lookup,
  inl, inr, Bool-cases,
}
use obligator.Types.{str, time, audience, flag, Identity, Request}
use obligator.Platform.{Platform}
use obligator.Http.{World, form_get}
use obligator.Utils.Cookies.{get_jwt_from_cookie, get_identities}
use obligator.Utils.LoginCookie.Merge.{by_id}
use obligator.Oidc.Approve.{auth_request_cookie, id_token_claims, has_scope}

module _ (p : Platform) where
  open p use {Token}

  -- The identities of the request, and the one that it approves.
  pub record IsEntitled (prefix : String) (now : ℕ) (r : Request) (s : World p) (t : Token)
      (i : Identity) : Type 0 where
    pub all : List Identity
    pub asked : get_jwt_from_cookie p now s.db (auth_request_cookie prefix) r ≡ ok t
    pub owned : get_identities p now s.db r ≡ ok all
    pub chosen : by_id (form_get "identity_id" r) all ≡ some i

-- The ID token names the approved address, this client and its nonce, and lasts a day. The e-mail
-- address stands in it exactly when the scope asks for it, and the name when the scope asks for the
-- profile, the identity has one, and the flow showed a page.
pub lookup-id_token_claims :
    (identity : Identity) (expanded_id client_id uri : String) (now : ℕ)
    (nonce scope flow_type : String)
    → let cs = id_token_claims identity expanded_id client_id uri now nonce scope flow_type in
      (lookup "sub" cs ≡ some (str expanded_id))
      × (lookup "aud" cs ≡ some (audience (client_id ∷ [])))
      × (lookup "iss" cs ≡ some (str uri))
      × (lookup "nonce" cs ≡ some (str nonce))
      × (lookup "exp" cs ≡ some (time (now + 86400)))
      × (lookup "email" cs ≡ (if has_scope "email" scope then some (str expanded_id) else none))
      × (lookup "email_verified" cs
          ≡ (if has_scope "email" scope then some (flag identity.email_verified) else none))
      × (lookup "name" cs ≡ (
          if has_scope "profile" scope && not (flow_type == "shortcut") && not (identity.name == "")
          then some (str identity.name)
          else none))
unfolding id_token_claims
lookup-id_token_claims identity expanded_id client_id uri now nonce scope flow_type =
    elim (Bool-cases (has_scope "email" scope)) [
      | inl e ↦
          elim (Bool-cases (
            has_scope "profile" scope
            && not (flow_type == "shortcut")
            && not (identity.name == ""))) [
              | inl n ↦ rw (e, n) (refl, refl, refl, refl, refl, refl, refl, refl)
              | inr n ↦ rw (e, n) (refl, refl, refl, refl, refl, refl, refl, refl)
            ]
      | inr e ↦
          elim (Bool-cases (
            has_scope "profile" scope
            && not (flow_type == "shortcut")
            && not (identity.name == ""))) [
              | inl n ↦ rw (e, n) (refl, refl, refl, refl, refl, refl, refl, refl)
              | inr n ↦ rw (e, n) (refl, refl, refl, refl, refl, refl, refl, refl)
            ]
    ]

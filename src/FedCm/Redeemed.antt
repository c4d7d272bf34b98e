-- ===== src/FedCm/Redeemed.antt =====
-- A code of /id-assertion is exchanged at IndieAuth's /token.
use obligator.Base.{ℕ, ◌≤◌, ◌≡◌, ◌≢◌, String, Result, ok}
use obligator.Types.{Request}
use obligator.Platform.{Platform}
use obligator.JwtLaws.{JwtLaws}
use obligator.Http.{World, form_get}
use obligator.Jose.{get_public_jwks}
use obligator.IndieAuth.Granted.{IsCoded}
use obligator.IndieAuth.Redeem.{IsExchanged, handle_token-IsExchanged}
use obligator.FedCm.{assertion_claims}
use obligator.FedCm.Asserted.{IsChosen}

module _ (p : Platform) where
  pub chosen-IsCoded :
      (unmarshal : String → Result String) (now : ℕ) (r : Request) (s : World p)
      (c : IsChosen p unmarshal now r s.db)
      → IsCoded p 300 now r.host c.ident.id c.challenge s.db c.code
  unfolding assertion_claims
  chosen-IsCoded unmarshal now r s c = record {
    code_token = c.token;
    built = c.built;
    signed = c.signed;
  }

  -- The code that /id-assertion gave the browser for the account it chose is exchanged at /token of
  -- the same host, within 300 seconds and with a fitting verifier, for the profile of an identity
  -- of the session with that account's id, and in no other case.
  pub handle_token-id_assertion :
      (laws : JwtLaws p) (unmarshal : String → Result String) (now later : ℕ) (r r' : Request)
      (s s' : World p) (c : IsChosen p unmarshal now r s.db) (public : p.Keyset)
      → c.code ≢ ""
      → get_public_jwks p s.db ≡ ok public
      → s'.db ≡ s.db
      → form_get "code" r' ≡ c.code
      → now ≤ later
      → IsExchanged p laws 300 now r.host c.ident.id c.challenge c.code s
          (chosen-IsCoded unmarshal now r s c)
          later
          r'
          s'
  handle_token-id_assertion laws unmarshal now later r r' s s' c public n k same code le =
      handle_token-IsExchanged p laws 300 now r.host c.ident.id c.challenge c.code s
        (chosen-IsCoded unmarshal now r s c) later r' s' public n k same code le

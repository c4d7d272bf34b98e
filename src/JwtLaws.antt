-- ===== src/JwtLaws.antt =====
-- What the program relies on in lestrrat-go/jwx: claims are a map, and a signed token is parsed
-- back with the public keys of the set that it was signed with while it is in time, and not after
-- its expiry; a builder gives each claim that it was told, once, to the token.
use obligator.Base.{
  ℕ, ◌≤◌, ◌<◌, ◌≡◌, ◌≢◌, ◌⊎◌, String, Bool, true, false, not, ◌&&◌, ◌==◌, ok, is_ok, none, some,
  List, [], ◌∷◌, lookup, exists,
}
use obligator.Types.{Claim, time}
use obligator.Utils.Cookies.{text_of}
use obligator.Platform.{Platform}

abbrev pub distinct_keys : List (String × Claim) → Bool
distinct_keys [] = true
distinct_keys ((k, c) ∷ cs) = not (exists (λ (e : String × Claim). e.0 == k) cs) && distinct_keys cs

module _ (p : Platform) where
  open p use {
    Token, Key, Keyset, new_token, get_claim, set_claim, first_key, public_set_of, jwt_sign,
    jwt_parse, build, subject, jwt_serialize, jwe_decrypt,
  }

  abbrev pub HasNoLimit : Token → Type 0
  HasNoLimit t = (get_claim "exp" t ≡ none) × (get_claim "nbf" t ≡ none)

  -- Not expired, and not issued in the future.
  abbrev pub IsTimely : ℕ → Token → Type 0
  IsTimely now t =
      ((get_claim "exp" t ≡ none) ⊎ ((e : ℕ) × (get_claim "exp" t ≡ some (time e)) × (now < e)))
      × (get_claim "nbf" t ≡ none)
      × ((i : ℕ) × (get_claim "iat" t ≡ some (time i)) × (i ≤ now))

  pub record JwtLaws : Type 0 where
    pub get-new : (k : String) → get_claim k new_token ≡ none
    pub get-set :
        (k : String) (c : Claim) (t t' : Token) → set_claim k c t ≡ ok t' → get_claim k t' ≡ some c
    pub get-set_other :
        (k j : String) (c : Claim) (t t' : Token)
        → k ≢ j
        → set_claim k c t ≡ ok t'
        → get_claim j t' ≡ get_claim j t
    pub sign-ne-blank : (k : Key) (t : Token) (v : String) → jwt_sign k t ≡ ok v → v ≢ ""
    pub parse-sign :
        (ks public : Keyset) (k : Key) (t : Token) (v : String) (now : ℕ)
        → first_key ks ≡ some k
        → public_set_of ks ≡ ok public
        → jwt_sign k t ≡ ok v
        → IsTimely now t
        → jwt_parse now public v ≡ ok t
    pub parse-sign_expired :
        (public : Keyset) (k : Key) (t : Token) (v : String) (e now : ℕ)
        → jwt_sign k t ≡ ok v
        → get_claim "exp" t ≡ some (time e)
        → e ≤ now
        → is_ok (jwt_parse now public v) ≡ false
    pub get-build :
        (k : String) (cs : List (String × Claim)) (t : Token)
        → distinct_keys cs ≡ true
        → build cs ≡ ok t
        → get_claim k t ≡ lookup k cs
    pub subject-sub : (t : Token) → subject t ≡ text_of (get_claim "sub" t)
    -- What is serialised is signed with RS256, which is deterministic, and then encrypted.
    pub decrypt-serialize :
        (ks public : Keyset) (k pk : Key) (t : Token) (v : String)
        → first_key ks ≡ some k
        → public_set_of ks ≡ ok public
        → first_key public ≡ some pk
        → jwt_serialize k pk t ≡ ok v
        → (signed : String) × (jwt_sign k t ≡ ok signed) × (jwe_decrypt k v ≡ ok signed)

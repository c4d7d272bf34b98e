-- ===== src/Jose/Signed.antt =====
-- jose.go, SignJWT and ParseJWT: what was signed is read back.
use obligator.Base.{
  ℕ, ◌≤◌, ◌≡◌, ◌≢◌, String, false, ok, >>=-eq-ok, is_ok, or_err, some, Result-cases, arith, inl,
  inr,
}
use obligator.Types.{time}
use obligator.Platform.{Platform}
use obligator.JwtLaws.{JwtLaws, IsTimely}
use obligator.Jose.{get_jwks, get_public_jwks, parse_jwt, sign_jwt}

module _ (p : Platform) (laws : JwtLaws p) where
  open p use {Db, Token, Keyset, Key, get_claim, first_key, jwt_sign}

  pub record IsSigned (d : Db) (t : Token) (v : String) : Type 0 where
    pub jwks : Keyset
    pub key : Key
    pub stored : get_jwks p d ≡ ok jwks
    pub first : first_key jwks ≡ some key
    pub by_key : jwt_sign key t ≡ ok v

  pub sign_jwt-IsSigned :
      (d : Db) (t : Token) (v : String) → v ≢ "" → sign_jwt p d t ≡ ok v → IsSigned d t v
  unfolding sign_jwt
  sign_jwt-IsSigned d t v n e =
      let (jwks, e1, r1) = >>=-eq-ok (get_jwks p d) _ v e in
      let (key, e2, r2) = >>=-eq-ok (or_err (first_key jwks) _) _ v r1 in
      record {
        jwks = jwks;
        key = key;
        stored = e1;
        first = ground (arith, e2);
        by_key = elim (Result-cases (jwt_sign key t)) [
          | inl (u, q) ↦ ground (arith, q, r2)
          | inr (m, q) ↦ absurd (n (ground (arith, q, r2)))
        ];
      }

  -- A text that this server signed is parsed back to its token while that is in time.
  pub parse_jwt-sign_jwt :
      (later : ℕ) (d : Db) (t : Token) (v : String) (public : Keyset)
      → v ≢ ""
      → sign_jwt p d t ≡ ok v
      → get_public_jwks p d ≡ ok public
      → IsTimely p later t
      → parse_jwt p later d v ≡ ok t
  unfolding parse_jwt get_public_jwks
  parse_jwt-sign_jwt later d t v public n e k timely =
      let s = sign_jwt-IsSigned d t v n e in
      rw k
        (laws.parse-sign s.jwks public s.key t v later s.first (rw s.stored at k) s.by_key timely)

  -- After its expiry it is refused.
  pub parse_jwt-sign_jwt_expired :
      (later expiry : ℕ) (d : Db) (t : Token) (v : String)
      → v ≢ ""
      → sign_jwt p d t ≡ ok v
      → get_claim "exp" t ≡ some (time expiry)
      → expiry ≤ later
      → is_ok (parse_jwt p later d v) ≡ false
  unfolding parse_jwt
  parse_jwt-sign_jwt_expired later expiry d t v n e x le =
      let s = sign_jwt-IsSigned d t v n e in
      elim (Result-cases (get_public_jwks p d)) [
        | inr (m, k) ↦ rw k
        | inl (public, k) ↦
            rw k (laws.parse-sign_expired public s.key t v expiry later s.by_key x le)
      ]

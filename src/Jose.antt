-- ===== src/Jose.antt =====
-- jose.go: the key set stands as JSON in the database, and every call parses it again. `now` is
-- the clock, which the library compares with a token's times when it parses one.
pub mod Generate
pub mod Signed
use obligator.Base.{ℕ, String, Result, ok, ◌>>=◌, ok_or, or_err}
use obligator.Platform.{Platform}

module _ (p : Platform) where
  open p use {
    Db, db, Token, Keyset, jwk_parse, public_set_of, first_key, jwt_sign, jwt_parse, jwt_serialize,
    jwe_decrypt,
  }

  unfoldable pub get_jwks : Db → Result Keyset
  get_jwks d = db.get_jwks_json d >>= jwk_parse

  unfoldable pub get_public_jwks : Db → Result Keyset
  get_public_jwks d = get_jwks d >>= public_set_of

  unfoldable pub decrypt_jwt : Db → String → Result String
  decrypt_jwt d encrypted_jwt = do
    jwks ← get_jwks d
    priv_key ← or_err (first_key jwks) "JOSE.sign(): No keys available for signing"
    jwe_decrypt priv_key encrypted_jwt

  unfoldable pub sign_and_encrypt_jwt : Db → Token → Result String
  sign_and_encrypt_jwt d jwt = do
    jwks ← get_jwks d
    priv_key ← or_err (first_key jwks) "JOSE.sign(): No keys available for signing"
    public_jwks ← public_set_of jwks
    pub_key ← or_err (first_key public_jwks) "JOSE.sign(): no pubkey"
    jwt_serialize priv_key pub_key jwt

  -- The error of jwt.Sign is dropped: the text is then "".
  unfoldable pub sign_jwt : Db → Token → Result String
  sign_jwt d jwt = do
    jwks ← get_jwks d
    key ← or_err (first_key jwks) "JOSE.sign(): No keys available for signing"
    ok (ok_or "" (jwt_sign key jwt))

  unfoldable pub parse_jwt : ℕ → Db → String → Result Token
  parse_jwt now d jwt_str = do public_jwks ← get_public_jwks d; jwt_parse now public_jwks jwt_str

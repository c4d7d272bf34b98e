-- ===== src/Utils/Random.antt =====
-- utils.go, genRandomKey and genRandomCode; add_identity_oauth2.go, GeneratePKCECodeVerifier.
-- The loops are one function over the rounds left and the text so far.
pub mod Shape
use Prim.Native.String.{[], ◌∷◌, count}
use obligator.Base.{ℕ, zero, suc, String, ◌⧺◌, Result, ok, err, ◌>>=◌}
use obligator.Platform.{Platform}

abbrev pub key_chars : String
key_chars = "0123456789abcdefghijklmnopqrstuvwxyzABCDEFGHIJKLMNOPQRSTUVWXYZ"

abbrev pub code_chars : String
code_chars = "0123456789"

abbrev pub verifier_chars : String
verifier_chars = "0123456789abcdefghijklmnopqrstuvwxyzABCDEFGHIJKLMNOPQRSTUVWXYZ-._~"

-- string(chars[i]); rand.Int keeps i below the length, and beyond it this is "".
unfoldable pub char_text : String → ℕ → String
char_text [] i = ""
char_text (c ∷ s) zero = c ∷ []
char_text (c ∷ s) (suc i) = char_text s i

module _ (p : Platform) where
  open p use {Source, rand_int}

  unfoldable pub gen_random : ℕ → String → Source → String → Result (String × Source)
  gen_random zero chars s id = ok (id, s)
  gen_random (suc n) chars s id =
      rand_int s (count chars) >>= λ d. gen_random n chars d.1 (id ⧺ char_text chars d.0)

  unfoldable pub gen_random_key : Source → Result (String × Source)
  gen_random_key s = gen_random 32 key_chars s ""

  unfoldable pub gen_random_code : Source → Result (String × Source)
  gen_random_code s = gen_random 4 code_chars s ""

  unfoldable pub generate_pkce_code_verifier : Source → Result (String × Source)
  generate_pkce_code_verifier s = gen_random 64 verifier_chars s ""

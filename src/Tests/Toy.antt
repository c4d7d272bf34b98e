-- ===== src/Tests/Toy.antt =====
-- A platform with concrete parts: signed texts are the names of a table, and the database is the
-- one of Sqlite.
use mathlib.Core.Path.{ap}
use native.Mathlib.Decide.{ℕ_discrete}
use obligator.Base.{
  ℕ, ◌<◌, ◌≤◌, ◌≡◌, ◌≢◌, ◌⊎◌, ◌∙◌, inl, inr, refl, sym, String, ◌%◌, Bool, true, false, Result, ok,
  err, is_ok, Option, none, some, List, [], ◌∷◌, lookup, ◌==◌, eq_iff, eq_refl, if◌then◌else◌, ltb,
  leb, arith, Bool-cases, text_ne, split, ok-injective,
}
use obligator.Types.{Claim, time, SmtpConfig, Url}
use obligator.Platform.{Platform, Database}
use obligator.JwtLaws.{JwtLaws}
use obligator.Sqlite.Tables.{SqliteDatabase}
use obligator.Sqlite.{sqlite}
use obligator.Utils.Cookies.{text_of}

abbrev pub Token : Type 0
Token = List (String × Claim)

abbrev str_dec : (s t : String) (b : Bool) → (s == t) ≡ b → Dec (s ≡ t)
str_dec s t true e = yes ((eq_iff s t).0 e)
str_dec s t false e = no (text_ne s t e)

abbrev string_discrete : Discrete String
string_discrete s t = str_dec s t (s == t) refl

abbrev claim_discrete : Discrete Claim
claim_discrete = hlevel (string_discrete, ℕ_discrete)

abbrev token_discrete : Discrete Token
token_discrete = hlevel (string_discrete, claim_discrete)

-- The first name of the token.
abbrev name_of : List (String × Token) → Token → String
name_of [] t = ""
name_of ((v, u) ∷ table) t = elim (token_discrete u t) [ yes e ↦ v | no n ↦ name_of table t ]

-- A token has a signature if it has a name that stands for it.
abbrev named : Token → String → Option Token → Result String
named t v none = err "no signature"
named t v (some u) = elim (token_discrete u t) [
  | yes e ↦ if v == "" then err "no signature" else ok v
  | no n ↦ err "no signature"
]

abbrev sign : List (String × Token) → Token → Result String
sign table t = named t (name_of table t) (lookup (name_of table t) table)

abbrev has_passed : ℕ → Option Claim → Bool
has_passed now (some (time e)) = leb e now
has_passed now _ = false

abbrev in_time : ℕ → Token → Result Token
in_time now t = if has_passed now (lookup "exp" t) then err "exp not satisfied" else ok t

abbrev parsed : ℕ → Option Token → Result Token
parsed now none = err "could not verify message"
parsed now (some t) = in_time now t

abbrev bounded : ℕ → ℕ → List ℕ → Result (ℕ × List ℕ)
bounded max n src = if ltb n max then ok (n, src) else err "crypto/rand: argument to Int is <= 0"

abbrev draw : List ℕ → ℕ → Result (ℕ × List ℕ)
draw [] max = bounded max 0 []
draw (n ∷ src) max = bounded max (n % max) src

pub bounded_lt :
    (max k : ℕ) (src : List ℕ) (n : ℕ) (src' : List ℕ) → bounded max k src ≡ ok (n, src') → n < max
bounded_lt max k src n src' e = ground arith

pub draw_lt : (src : List ℕ) (max n : ℕ) (src' : List ℕ) → draw src max ≡ ok (n, src') → n < max
draw_lt [] max n src' e = bounded_lt max 0 [] n src' e
draw_lt (k ∷ src) max n src' e = bounded_lt max (k % max) src n src' e

abbrev pub marshal : SmtpConfig → Result String
marshal smtp = ok smtp.server

abbrev pub unmarshal : String → Result SmtpConfig
unmarshal json = ok (record {
  server = json;
  username = "";
  password = "";
  port = 25;
  sender = "id@example.com";
  sender_name = "example.com";
})

abbrev pub database : Database SqliteDatabase
database = sqlite (λ s. s) (λ s. s) marshal unmarshal

abbrev pub parse_url : String → Result Url
parse_url s = elim (split b'/' s) [
  | scheme ∷ blank ∷ host ∷ rest ↦ ok (record { host = host; path = "/" })
  | _ ↦ ok (record { host = ""; path = s })
]

abbrev head_of : String → List String → String
head_of d [] = d
head_of d (part ∷ parts) = part

abbrev pub toy : List (String × Token) → Platform
toy table = record {
  Db = SqliteDatabase;
  db = database;
  Token = Token;
  Key = Unit;
  Keyset = Unit;
  new_token = [];
  get_claim = lookup;
  set_claim = λ k c t. ok ((k, c) ∷ t);
  build = ok;
  subject = λ t. text_of (lookup "sub" t);
  jwk_parse = λ s. ok tt;
  public_set_of = λ s. ok tt;
  first_key = λ s. some tt;
  jwt_sign = λ k t. sign table t;
  jwt_parse = λ now s v. parsed now (lookup v table);
  jwt_serialize = λ k pk t. sign table t;
  jwe_decrypt = λ k v. ok v;
  sha256 = λ s. s;
  hex = λ s. s;
  base64_raw_url = λ s. s;
  Source = List ℕ;
  rand_int = draw;
  rand_int_lt = draw_lt;
  url_parse = parse_url;
  split_host_port = λ s. ok (head_of s (split b':' s));
  parse_address = ok;
  format_time = λ n. "2024-01-01T00:00:00Z";
  execute_template = λ g. ok tt;
  primary_file = err "open /litefs/.primary: no such file or directory";
}

named_if :
    (t u : Token) (v w : String)
    → u ≡ t
    → (if v == "" then err "no signature" else ok v) ≡ ok w
    → (v ≡ w) × (w ≢ "") × (some u ≡ some t)
named_if t u v w q h = elim (Bool-cases (v == "")) [
  | inl b ↦ cc (rw b at h)
  | inr b ↦
      let same : v ≡ w = ok-injective v w (rw b at h) in
      (same, rw (← same) (text_ne v "" b), ap some q)
]

named-ok :
    (t : Token) (v : String) (o : Option Token) (w : String)
    → named t v o ≡ ok w
    → (v ≡ w) × (w ≢ "") × (o ≡ some t)
named-ok t v none w e = cc
named-ok t v (some u) w e =
    elim (token_discrete u t)
        as (λ x.
          (elim x [
            | yes e ↦ if v == "" then err "no signature" else ok v
            | no n ↦ err "no signature"
          ])
            ≡ ok w
          → (v ≡ w) × (w ≢ "") × (some u ≡ some t)) [
            | yes q ↦ λ h. named_if t u v w q h
            | no n ↦ λ h. cc
          ]
      e

sign-ok :
    (table : List (String × Token)) (t : Token) (v : String)
    → sign table t ≡ ok v
    → (v ≢ "") × (lookup v table ≡ some t)
sign-ok table t v e =
    let (same, n, found) = named-ok t (name_of table t) (lookup (name_of table t) table) v e in
    (n, rw same at found)

lookup-first :
    (k : String) (c : Claim) (t t' : Token) → ok ((k, c) ∷ t) ≡ ok t' → lookup k t' ≡ some c
lookup-first k c t t' e = rw (← ok-injective ((k, c) ∷ t) t' e) (rw (eq_refl k))

lookup-other :
    (k j : String) (c : Claim) (t t' : Token)
    → k ≢ j
    → ok ((k, c) ∷ t) ≡ ok t'
    → lookup j t' ≡ lookup j t
lookup-other k j c t t' n e =
    rw (← ok-injective ((k, c) ∷ t) t' e)
      (elim (Bool-cases (k == j)) [ inl b ↦ absurd (n ((eq_iff k j).0 b)) | inr b ↦ rw b ])

parsed-named : (now : ℕ) (t : Token) (o : Option Token) → o ≡ some t → parsed now o ≡ in_time now t
parsed-named now t o e = rw e

in_time-timely :
    (now : ℕ) (t : Token)
    → (lookup "exp" t ≡ none) ⊎ ((e : ℕ) × (lookup "exp" t ≡ some (time e)) × (now < e))
    → in_time now t ≡ ok t
in_time-timely now t (inl e) = rw e
in_time-timely now t (inr (x, e, lt)) = rw e (ground arith)

in_time-late :
    (now e : ℕ) (t : Token)
    → lookup "exp" t ≡ some (time e)
    → e ≤ now
    → is_ok (in_time now t) ≡ false
in_time-late now e t x le = rw x (ground arith)

pub toy_laws : (table : List (String × Token)) → JwtLaws (toy table)
toy_laws table = record {
  get-new = λ k. refl;
  get-set = λ k c t t' e. lookup-first k c t t' e;
  get-set_other = λ k j c t t' n e. lookup-other k j c t t' n e;
  sign-ne-blank = λ k t v e. (sign-ok table t v e).0;
  parse-sign = λ ks public k t v now e1 e2 e3 timely.
      parsed-named now t _ (sign-ok table t v e3).1 ∙ in_time-timely now t timely.0;
  parse-sign_expired = λ public k t v e now e1 x le.
      ap is_ok (parsed-named now t _ (sign-ok table t v e1).1) ∙ in_time-late now e t x le;
  get-build = λ k cs t h e. ap (lookup k) (sym (ok-injective cs t e));
  subject-sub = λ t. refl;
  decrypt-serialize = λ ks public k pk t v e1 e2 e3 e4. (v, e4, refl);
}

-- ===== src/Utils/LoginCookie/Session.antt =====
-- A login cookie that was set is read back.
use obligator.Base.{
  ℕ, ◌≤◌, ◌≡◌, ◌≢◌, refl, ◌∙◌, String, ◌==◌, eq_iff, text_ne, ok, >>=-eq-ok, some, List, Bool-cases,
  arith, inl, inr,
}
use obligator.Types.{Claim, identities, time, str, Identity, Cookie, Request}
use obligator.Platform.{Platform}
use obligator.JwtLaws.{JwtLaws, HasNoLimit}
use obligator.Http.{cookie_value}
use obligator.Jose.{get_public_jwks, parse_jwt, sign_jwt}
use obligator.Jose.Signed.{parse_jwt-sign_jwt}
use obligator.Utils.CookieDomain.{build_cookie_domain}
use obligator.Utils.Random.{gen_random_key}
use obligator.Utils.Cookies.{
  login_key_name, get_login_cookie, get_identities, get_identities_common, cross_site_detector,
}
use obligator.Utils.LoginCookie.{
  merge_identities, old_identities, current_token, token_or_new, seal_token, add_ident_to_cookie,
}

module _ (p : Platform) (laws : JwtLaws p) where
  open p use {
    Db, db, Token, Source, Keyset, Key, get_claim, set_claim, first_key, jwt_sign, new_token,
  }

  -- What the text of a sealed token stands for.
  record IsSealed (now : ℕ) (d : Db) (t : Token) (name : String) (c : Claim) (v : String)
      : Type 0 where
    full : Token
    signed : sign_jwt p d full ≡ ok v
    claim : get_claim name full ≡ some c
    issued : get_claim "iat" full ≡ some (time now)
    others : (k : String) → "iat" ≢ k → "nonce" ≢ k → name ≢ k → get_claim k full ≡ get_claim k t

  seal_token-IsSealed :
      (now : ℕ) (d : Db) (t : Token) (name : String) (c : Claim) (src : Source) (v : String)
      (src' : Source)
      → name ≢ "iat"
      → seal_token p now d t name c src ≡ ok (v, src')
      → IsSealed now d t name c v
  unfolding seal_token
  seal_token-IsSealed now d t name c src v src' n e =
      let (dated, e1, r1) = >>=-eq-ok (set_claim "iat" (time now) t) _ (v, src') e in
      let (drawn, e2, r2) = >>=-eq-ok (gen_random_key p src) _ (v, src') r1 in
      let (fresh, e3, r3) = >>=-eq-ok (set_claim "nonce" (str drawn.0) dated) _ (v, src') r2 in
      let (full, e4, r4) = >>=-eq-ok (set_claim name c fresh) _ (v, src') r3 in
      let (signed, e5, r5) = >>=-eq-ok (sign_jwt p d full) _ (v, src') r4 in
      record {
        full = full;
        signed = ground (arith, e5, r5);
        claim = laws.get-set name c fresh full e4;
        issued =
            laws.get-set_other name "iat" c fresh full n e4
            ∙ laws.get-set_other "nonce" "iat" (str drawn.0) dated fresh
                (text_ne "nonce" "iat" refl) e3
            ∙ laws.get-set "iat" (time now) t dated e1;
        others = λ k n1 n2 n3.
            laws.get-set_other name k c fresh full n3 e4
            ∙ laws.get-set_other "nonce" k (str drawn.0) dated fresh n2 e3
            ∙ laws.get-set_other "iat" k (time now) t dated n1 e1;
      }

  -- Reading a login cookie, when its token is known.
  get_identities-parsed :
      (now : ℕ) (d : Db) (r : Request) (name v x : String) (t : Token) (l : List Identity)
      → login_key_name p d ≡ ok name
      → cookie_value name r ≡ ok v
      → cookie_value cross_site_detector r ≡ ok x
      → v ≢ ""
      → parse_jwt p now d v ≡ ok t
      → get_claim "identities" t ≡ some (identities l)
      → get_identities p now d r ≡ ok l
  unfolding get_identities get_login_cookie get_identities_common
  get_identities-parsed now d r name v x t l e1 e2 e3 n e4 e5 = elim (Bool-cases (v == "")) [
    | inl b ↦ absurd (n ((eq_iff v "").0 b))
    | inr b ↦ rw (e1, e2, e3, b, e4, e5)
  ]

  -- A cookie that holds a session with the identities, without a time limit.
  pub record IsSession (now : ℕ) (d : Db) (list : List Identity) (c : Cookie) : Type 0 where
    pub full : Token
    pub name : login_key_name p d ≡ ok c.name
    pub signed : sign_jwt p d full ≡ ok c.value
    pub claim : get_claim "identities" full ≡ some (identities list)
    pub unlimited : HasNoLimit p full
    pub issued : get_claim "iat" full ≡ some (time now)

  pub add_ident_to_cookie-IsSession :
      (now : ℕ) (host : String) (d : Db) (old : String) (new_ident : Identity) (src : Source)
      (c : Cookie) (src' : Source)
      → add_ident_to_cookie p now host d old new_ident src ≡ ok (c, src')
      → HasNoLimit p (token_or_new p (current_token p now d old))
      → IsSession now d
          (merge_identities new_ident (old_identities p (current_token p now d old)))
          c
  unfolding add_ident_to_cookie
  add_ident_to_cookie-IsSession now host d old new_ident src c src' e h =
      let current = current_token p now d old in
      let list = merge_identities new_ident (old_identities p current) in
      let (sealed, e1, r1) =
        >>=-eq-ok (seal_token p now d (token_or_new p current) "identities" (identities list) src) _
          (c, src') e in
      let (cookie_domain, e2, r2) = >>=-eq-ok (build_cookie_domain host) _ (c, src') r1 in
      let (name, e3, r3) = >>=-eq-ok (login_key_name p d) _ (c, src') r2 in
      let s =
        seal_token-IsSealed now d (token_or_new p current) "identities" (identities list) src
          sealed.0 sealed.1 (text_ne _ _ refl) e1 in
      let same_value : sealed.0 ≡ c.value = ground (arith, r3) in
      let same_name : name ≡ c.name = ground (arith, r3) in
      record {
        full = s.full;
        name = rw same_name at e3;
        signed = rw same_value at s.signed;
        claim = s.claim;
        unlimited = (
          s.others "exp" (text_ne _ _ refl) (text_ne _ _ refl) (text_ne _ _ refl) ∙ h.0,
          s.others "nbf" (text_ne _ _ refl) (text_ne _ _ refl) (text_ne _ _ refl) ∙ h.1,
        );
        issued = s.issued;
      }

  pub parse_jwt-IsSession :
      (now later : ℕ) (d : Db) (list : List Identity) (c : Cookie) (public : Keyset)
      (s : IsSession now d list c)
      → c.value ≢ ""
      → get_public_jwks p d ≡ ok public
      → now ≤ later
      → parse_jwt p later d c.value ≡ ok s.full
  parse_jwt-IsSession now later d list c public s n k le =
      parse_jwt-sign_jwt p laws later d s.full c.value public n s.signed k
        (inl s.unlimited.0, s.unlimited.1, (now, s.issued, le))

  pub get_identities-IsSession :
      (now later : ℕ) (d : Db) (list : List Identity) (c : Cookie) (public : Keyset) (r : Request)
      (x : String)
      → IsSession now d list c
      → c.value ≢ ""
      → get_public_jwks p d ≡ ok public
      → cookie_value c.name r ≡ ok c.value
      → cookie_value cross_site_detector r ≡ ok x
      → now ≤ later
      → get_identities p later d r ≡ ok list
  get_identities-IsSession now later d list c public r x s n k b1 b2 le =
      get_identities-parsed later d r c.name c.value x s.full list s.name b1 b2 n
        (parse_jwt-IsSession now later d list c public s n k le) s.claim

  pub current_token-IsSession :
      (now later : ℕ) (d : Db) (list : List Identity) (c : Cookie) (public : Keyset)
      (s : IsSession now d list c)
      → c.value ≢ ""
      → get_public_jwks p d ≡ ok public
      → now ≤ later
      → current_token p later d c.value ≡ some s.full
  unfolding current_token
  current_token-IsSession now later d list c public s n k le = elim (Bool-cases (c.value == "")) [
    | inl b ↦ absurd (n ((eq_iff c.value "").0 b))
    | inr b ↦ rw (b, parse_jwt-IsSession now later d list c public s n k le)
  ]

  pub get_identities-add_ident_to_cookie :
      (now later : ℕ) (host : String) (d : Db) (old : String) (new_ident : Identity) (src : Source)
      (c : Cookie) (src' : Source) (public : Keyset) (r : Request) (x : String)
      → add_ident_to_cookie p now host d old new_ident src ≡ ok (c, src')
      → c.value ≢ ""
      → get_public_jwks p d ≡ ok public
      → HasNoLimit p (token_or_new p (current_token p now d old))
      → cookie_value c.name r ≡ ok c.value
      → cookie_value cross_site_detector r ≡ ok x
      → now ≤ later
      → get_identities p later d r
        ≡ ok (merge_identities new_ident (old_identities p (current_token p now d old)))
  get_identities-add_ident_to_cookie now later host d old new_ident src c src' public r x e n k h b1
        b2 le =
      get_identities-IsSession now later d
        (merge_identities new_ident (old_identities p (current_token p now d old))) c public r x
        (add_ident_to_cookie-IsSession now host d old new_ident src c src' e h) n k b1 b2 le

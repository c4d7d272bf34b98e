-- ===== src/Http.antt =====
-- net/http's ResponseWriter, and the state that the handlers share: the response under way, the
-- database, the random source and the maps of pending requests.
use obligator.Base.{
  ℕ, ◌<◌, ◌≡◌, String, Bool, true, false, List, [], ◌∷◌, ◌++◌, Option, none, some, Result, ok, err,
  lookup, arith, Result-cases, inl, inr, refl,
}
use obligator.Types.{Cookie, Request, Identity, PendingLogin, PendingShare}
use obligator.Pages.{Body, text, page, Page}
use obligator.Platform.{Platform}
use obligator.Handler.After.{After}
use obligator.Handler.{M, Outcome, next, stop, panic}

-- The status is `none` until the header is written; then headers and cookies no longer change.
pub record Response : Type 0 where
  pub status : Option ℕ
  pub headers : List (String × String)
  pub cookies : List Cookie
  pub body : List Body

abbrev pub fresh : Response
fresh = record { status = none; headers = []; cookies = []; body = [] }

-- A second WriteHeader is superfluous.
abbrev pub write_header : ℕ → Response → Response
write_header n w = elim w.status [ none ↦ record w { status = some n } | some _ ↦ w ]

-- A write sends the header first, with status 200 if none was set.
abbrev pub write : Body → Response → Response
write b w = elim w.status [
  | none ↦ record w { status = some 200; body = w.body ++ b ∷ [] }
  | some _ ↦ record w { body = w.body ++ b ∷ [] }
]

abbrev pub add_header : String → String → Response → Response
add_header k v w = elim w.status [
  | none ↦ record w { headers = w.headers ++ (k, v) ∷ [] }
  | some _ ↦ w
]

abbrev pub add_cookie : Cookie → Response → Response
add_cookie c w = elim w.status [ none ↦ record w { cookies = w.cookies ++ c ∷ [] } | some _ ↦ w ]

-- r.Form.Get: the first value, or "".
abbrev pub first_or_blank : Option (List String) → String
first_or_blank none = ""
first_or_blank (some []) = ""
first_or_blank (some (v ∷ vs)) = v

abbrev pub form_get : String → Request → String
form_get k r = first_or_blank (lookup k r.form)

abbrev pub text_or_blank : Option String → String
text_or_blank none = ""
text_or_blank (some v) = v

abbrev pub header_get : String → Request → String
header_get k r = text_or_blank (lookup k r.headers)

abbrev pub or_no_cookie : Option String → Result String
or_no_cookie none = err "http: named cookie not present"
or_no_cookie (some v) = ok v

-- r.Cookie(name).Value
abbrev pub cookie_value : String → Request → Result String
cookie_value k r = or_no_cookie (lookup k r.cookies)

cookies-write_at :
    (b : Body) (n : ℕ) (w : Response) (status : Option ℕ)
    → (write b (write_header n (record w { status = status }))).cookies ≡ w.cookies
cookies-write_at b n w none = refl
cookies-write_at b n w (some m) = refl

pub cookies-write :
    (b : Body) (n : ℕ) (w : Response) → (write b (write_header n w)).cookies ≡ w.cookies
cookies-write b n w = cookies-write_at b n w w.status

cookies-write_header_at :
    (n : ℕ) (w : Response) (status : Option ℕ)
    → (write_header n (record w { status = status })).cookies ≡ w.cookies
cookies-write_header_at n w none = refl
cookies-write_header_at n w (some m) = refl

pub cookies-write_header : (n : ℕ) (w : Response) → (write_header n w).cookies ≡ w.cookies
cookies-write_header n w = cookies-write_header_at n w w.status

cookies-add_header_at :
    (k v : String) (w : Response) (status : Option ℕ)
    → (add_header k v (record w { status = status })).cookies ≡ w.cookies
cookies-add_header_at k v w none = refl
cookies-add_header_at k v w (some m) = refl

pub cookies-add_header : (k v : String) (w : Response) → (add_header k v w).cookies ≡ w.cookies
cookies-add_header k v w = cookies-add_header_at k v w w.status

-- A goroutine started by /email-sent.
pub record EmailJob : Type 0 where
  pub email : String
  pub root_uri : String
  pub magic_link : String
  pub identities : List Identity

module _ (p : Platform) where
  open p use {Db, Source, execute_template}

  pub record World : Type 0 where
    pub w : Response
    pub db : Db
    pub random : Source
    pub pending_logins : List (String × PendingLogin)
    pub pending_shares : List (String × PendingShare)
    pub pending_codes : List (String × String)
    pub jobs : List EmailJob

  abbrev pub Action : Type 0 → Type 0
  Action A = M World A

module _ {p : Platform} where
  abbrev pub pure : {A : Type 0} → A → Action p A
  pure a s = next a s

  abbrev pub gets : {A : Type 0} → (World p → A) → Action p A
  gets f s = next (f s) s

  -- What the calls that draw or store have left.
  abbrev pub set_random : p.Source → Action p (Unit {0})
  set_random src s = next tt (record s { random = src })

  abbrev pub set_db : p.Db → Action p (Unit {0})
  set_db d s = next tt (record s { db = d })

  abbrev pub respond : (Response → Response) → Action p (Unit {0})
  respond f s = next tt (record s { w = f s.w })

  abbrev pub set_header : String → String → Action p (Unit {0})
  set_header k v = respond (add_header k v)

  abbrev pub set_cookie : Cookie → Action p (Unit {0})
  set_cookie c = respond (add_cookie c)

  -- w.WriteHeader(n); io.WriteString(w, m); return
  abbrev pub fail : {A : Type 0} → ℕ → String → Action p A
  fail n m s = stop (record s { w = write (text m) (write_header n s.w) })

  -- w.WriteHeader(n); return: what goes to the log is not modelled.
  abbrev pub fail_silent : {A : Type 0} → ℕ → Action p A
  fail_silent n s = stop (record s { w = write_header n s.w })

  abbrev pub or_fail : {A : Type 0} → ℕ → Result A → Action p A
  or_fail n (ok a) s = next a s
  or_fail n (err m) s = fail n m s

  abbrev pub or_fail_silent : {A : Type 0} → ℕ → Result A → Action p A
  or_fail_silent n (ok a) s = next a s
  or_fail_silent n (err m) s = fail_silent n s

  -- if b { fail }
  abbrev pub fail_if : Bool → ℕ → String → Action p (Unit {0})
  fail_if true n m s = fail n m s
  fail_if false n m s = next tt s

  -- http.Redirect; return
  abbrev pub redirect : {A : Type 0} → String → ℕ → Action p A
  redirect url n s = stop (record s { w = write_header n (add_header "Location" url s.w) })

  abbrev pub halt : {A : Type 0} → Action p A
  halt s = stop s

  abbrev pub crash : {A : Type 0} → Action p A
  crash s = panic s

  pub or_fail-next :
      {A : Type 0} (n : ℕ) (x : Result A) (s s' : World p) (a : A)
      → or_fail n x s ≡ next a s'
      → (x ≡ ok a) × (s ≡ s')
  or_fail-next n (ok b) s s' a e = ground arith
  or_fail-next n (err m) s s' a e = cc

  pub or_fail_silent-next :
      {A : Type 0} (n : ℕ) (x : Result A) (s s' : World p) (a : A)
      → or_fail_silent n x s ≡ next a s'
      → (x ≡ ok a) × (s ≡ s')
  or_fail_silent-next n (ok b) s s' a e = ground arith
  or_fail_silent-next n (err m) s s' a e = cc

  -- The handler has returned with an error status and a text, and nothing else has changed.
  abbrev pub Refuses : {A : Type 0} → World p → Outcome (World p) A → Type 0
  Refuses s o = (n : ℕ) × (m : String) × (300 < n) × (o ≡ fail n m s)

module _ (p : Platform) where
  open p use {execute_template}

  -- tmpl.ExecuteTemplate, with the status of its error path; return
  unfoldable pub show_page : ℕ → Page → Action p (Unit {0})
  show_page n g s = elim (execute_template g) [
    | ok _ ↦ stop (record s { w = write (page g) s.w })
    | err m ↦ fail n m s
  ]

  -- A page changes nothing but the response.
  pub show_page-After :
      (P : World p → Type 0) (Q : Unit {0} → World p → Type 0) (n : ℕ) (g : Page) (s : World p)
      → ((w : Response) → P (record s { w = w }))
      → After P Q (show_page n g s)
  unfolding show_page
  show_page-After P Q n g s h = elim (Result-cases (execute_template g)) [
    | inl (u, e) ↦ rw (e, show_page) (h _)
    | inr (m, e) ↦ rw (e, show_page) (h _)
  ]

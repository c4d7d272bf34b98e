-- ===== src/Utils/LoginCookie/Merge.antt =====
-- How the login cookie's lists change.
use obligator.Base.{
  ◌≡◌, ◌≢◌, refl, String, ◌==◌, eq_iff, Bool, true, false, not, ◌&&◌, List, [], ◌∷◌, ◌++◌, Option,
  none, some, find, keep, exists, map, All, All-keep, if◌then◌else◌, Bool-cases, arith, inl, inr,
  lookup, lookup-insert,
}
use obligator.Types.{Identity, Login, Logins}
use obligator.Utils.LoginCookie.{
  merge_identities, merge_logins, merge_client_logins, same_login, touch, logins_or_none,
}

-- The identity that /approve, /confirm and /id-assertion take for an id.
abbrev pub by_id : String → List Identity → Option Identity
by_id k = find (λ ident. ident.id == k)

pub by_id-keep :
    (k n : String) (l : List Identity)
    → k ≢ n
    → by_id k (keep (λ ident. not (ident.id == n)) l) ≡ by_id k l
by_id-keep k n [] h = refl
by_id-keep k n (i ∷ l) h = ground (arith, eq_iff i.id k, eq_iff i.id n, by_id-keep k n l h)

pub by_id-keep_same :
    (n : String) (l : List Identity) → by_id n (keep (λ ident. not (ident.id == n)) l) ≡ none
by_id-keep_same n [] = refl
by_id-keep_same n (i ∷ l) = ground (arith, eq_iff i.id n, by_id-keep_same n l)

-- The identities after a login are a map update: the new identity under its id, all others as
-- they were.
pub by_id-merge_identities :
    (k : String) (new : Identity) (old : List Identity)
    → by_id k (merge_identities new old) ≡ (if new.id == k then some new else by_id k old)
unfolding merge_identities
by_id-merge_identities k new old = ground (arith, eq_iff new.id k, by_id-keep k new.id old)

abbrev pub IsDistinct : List Identity → Type 0
IsDistinct [] = Unit
IsDistinct (i ∷ l) = All (λ j. j.id ≢ i.id) l × IsDistinct l

keep-IsDistinct : (q : Identity → Bool) (l : List Identity) → IsDistinct l → IsDistinct (keep q l)
keep-IsDistinct q [] h = tt
keep-IsDistinct q (i ∷ l) (n, h) =
    ground (arith, keep-IsDistinct q l h, All-keep (λ (j : Identity). j.id ≢ i.id) q l n)

keep-All : (n : String) (l : List Identity) → All (λ j. j.id ≢ n) (keep (λ j. not (j.id == n)) l)
keep-All n [] = tt
keep-All n (i ∷ l) = ground (arith, eq_iff i.id n, keep-All n l)

-- Identities with distinct ids have distinct ids after a login as well.
pub merge_identities-IsDistinct :
    (new : Identity) (old : List Identity) → IsDistinct old → IsDistinct (merge_identities new old)
unfolding merge_identities
merge_identities-IsDistinct new old h =
    (keep-All new.id old, keep-IsDistinct (λ j. not (j.id == new.id)) old h)

-- The time of the login of a client with the id and the provider of k.
abbrev pub last_time : Login → List Login → Option String
last_time k [] = none
last_time k (l ∷ ls) = if same_login k l then some l.timestamp else last_time k ls

last_time-touch_other :
    (k new : Login) (old : List Login)
    → same_login k new ≡ false
    → last_time k (map (touch new) old) ≡ last_time k old
last_time-touch_other k new [] h = refl
last_time-touch_other k new (l ∷ ls) h = ground (
  arith,
  eq_iff new.id k.id,
  eq_iff new.provider_name k.provider_name,
  eq_iff l.id k.id,
  eq_iff l.provider_name k.provider_name,
  eq_iff l.id new.id,
  eq_iff l.provider_name new.provider_name,
  last_time-touch_other k new ls h,
)

last_time-touch :
    (k new : Login) (old : List Login)
    → same_login k new ≡ true
    → exists (same_login new) old ≡ true
    → last_time k (map (touch new) old) ≡ some new.timestamp
last_time-touch k new [] h e = cc
last_time-touch k new (l ∷ ls) h e = ground (
  arith,
  eq_iff new.id k.id,
  eq_iff new.provider_name k.provider_name,
  eq_iff l.id k.id,
  eq_iff l.provider_name k.provider_name,
  eq_iff l.id new.id,
  eq_iff l.provider_name new.provider_name,
  last_time-touch k new ls h,
)

last_time-append :
    (k new : Login) (old : List Login)
    → exists (same_login new) old ≡ false
    → last_time k (old ++ new ∷ [])
      ≡ (if same_login k new then some new.timestamp else last_time k old)
last_time-append k new [] h = refl
last_time-append k new (l ∷ ls) h = ground (
  arith,
  eq_iff new.id k.id,
  eq_iff new.provider_name k.provider_name,
  eq_iff l.id k.id,
  eq_iff l.provider_name k.provider_name,
  eq_iff l.id new.id,
  eq_iff l.provider_name new.provider_name,
  last_time-append k new ls,
)

last_time-merge_logins :
    (k new : Login) (old : List Login)
    → last_time k (merge_logins new old)
      ≡ (if same_login k new then some new.timestamp else last_time k old)
unfolding merge_logins
last_time-merge_logins k new old = elim (Bool-cases (exists (same_login new) old)) [
  | inr e ↦ rw e (last_time-append k new old e)
  | inl e ↦ elim (Bool-cases (same_login k new)) [
    | inl h ↦ rw (e, h) (last_time-touch k new old h e)
    | inr h ↦ rw (e, h) (last_time-touch_other k new old h)
  ]
]

abbrev pub time_at : String → Login → Logins → Option String
time_at client_id k all = last_time k (logins_or_none (lookup client_id all))

-- After a login the client has its time under its id and provider; every other entry, and every
-- other client, is as it was.
pub time_at-merge_client_logins :
    (client_id c : String) (k new : Login) (all : Logins)
    → time_at c k (merge_client_logins client_id new all)
      ≡ (if client_id == c && same_login k new then some new.timestamp else time_at c k all)
unfolding merge_client_logins
time_at-merge_client_logins client_id c k new all = ground (
  arith,
  lookup-insert client_id c (merge_logins new (logins_or_none (lookup client_id all))) all,
  eq_iff client_id c,
  last_time-merge_logins k new (logins_or_none (lookup client_id all)),
)

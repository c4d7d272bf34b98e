-- ===== src/Start/Rows.antt =====
-- The rows of the database after the loops over the configuration.
use obligator.Base.{
  ◌≡◌, refl, ap, ◌∙◌, sym, String, Bool, true, false, ◌==◌, eq_iff, Result, ok_or, Option, none,
  some, List, [], ◌∷◌, ◌++◌, exists, if◌then◌else◌, Bool-cases, Option-cases, inl, inr, arith,
}
use obligator.Types.{OAuth2Provider, SmtpConfig, User, Domain}
use obligator.Sqlite.Tables.{replace_into, insert_unique}
use obligator.Sqlite.Keys.{with_key, with_key-replace_into, insert_unique-cases, exists-with_key}
use obligator.Sqlite.{hash}
use obligator.Start.{email_user}

-- The rows after the loops.
abbrev pub replaced : List String → List User → List User
replaced [] rows = rows
replaced (user_id ∷ rest) rows =
    replaced rest (replace_into (λ (u : User). u.id) (email_user user_id) rows)

abbrev pub replaced_all : List OAuth2Provider → List OAuth2Provider → List OAuth2Provider
replaced_all [] rows = rows
replaced_all (provider ∷ rest) rows =
    replaced_all rest (replace_into (λ (o : OAuth2Provider). o.id) provider rows)

abbrev pub last_provider : String → List OAuth2Provider → Option OAuth2Provider
last_provider id [] = none
last_provider id (provider ∷ rest) = elim (last_provider id rest) [
  | some later ↦ some later
  | none ↦ if provider.id == id then some provider else none
]

abbrev pub provider_or : Option OAuth2Provider → Option OAuth2Provider → Option OAuth2Provider
provider_or (some q) old = some q
provider_or none old = old

abbrev pub is_listed : String → List String → Bool
is_listed k l = exists (λ (x : String). x == k) l

pub with_key-replaced :
    (k : String) (l : List String) (rows : List User)
    → with_key (λ u. u.id) k (replaced l rows)
      ≡ (if is_listed k l then some (email_user k) else with_key (λ u. u.id) k rows)
with_key-replaced k [] rows = refl
with_key-replaced k (user_id ∷ rest) rows =
    with_key-replaced k rest (replace_into (λ (u : User). u.id) (email_user user_id) rows)
    ∙ rw (with_key-replace_into (λ (u : User). u.id) k (email_user user_id) rows)
        (ground (arith, eq_iff user_id k))

pub with_key-replaced_all :
    (k : String) (l rows : List OAuth2Provider)
    → with_key (λ o. o.id) k (replaced_all l rows)
      ≡ provider_or (last_provider k l) (with_key (λ o. o.id) k rows)
with_key-replaced_all k [] rows = refl
with_key-replaced_all k (provider ∷ rest) rows =
    with_key-replaced_all k rest (replace_into (λ (o : OAuth2Provider). o.id) provider rows)
    ∙ rw (with_key-replace_into (λ (o : OAuth2Provider). o.id) k provider rows) (ground arith)

module _ (sha256 hex : String → String) (marshal : SmtpConfig → Result String)
    (unmarshal : String → Result SmtpConfig) where
  abbrev pub root_domain : String → Domain
  root_domain domain = record {
    hashed_owner_id = hash sha256 hex marshal unmarshal "root";
    domain = domain;
  }

  abbrev pub domain_or : Option Domain → Bool → String → Option Domain
  domain_or (some d) listed k = some d
  domain_or none true k = some (root_domain k)
  domain_or none false k = none

  unfoldable pub entered : String → List Domain → List Domain
  entered domain rows =
      ok_or rows (insert_unique (λ (d : Domain). d.domain) (root_domain domain) rows)

  abbrev pub inserted : List String → List Domain → List Domain
  inserted [] rows = rows
  inserted (domain ∷ rest) rows = inserted rest (entered domain rows)

  -- A domain that stands in the table stays as it is.
  known :
      (k domain : String) (at_domain at_k : Option Domain)
      → (elim at_domain [ none ↦ false | some _ ↦ true ]) ≡ true
      → (domain ≡ k → at_domain ≡ at_k)
      → at_k ≡ domain_or at_k (domain == k) k
  known k domain none at_k e h = cc
  known k domain (some d) none e h = elim (Bool-cases (domain == k)) [
    | inl q ↦ cc (h ((eq_iff domain k).0 q))
    | inr q ↦ rw q
  ]
  known k domain (some d) (some d') e h = refl

  with_key-entered :
      (k domain : String) (rows : List Domain)
      → with_key (λ d. d.domain) k (entered domain rows)
        ≡ domain_or (with_key (λ d. d.domain) k rows) (domain == k) k
  unfolding entered
  with_key-entered k domain rows =
      let row = root_domain domain in
      let there = exists-with_key (λ (d : Domain). d.domain) domain rows in
      elim (Bool-cases (exists (λ (d : Domain). d.domain == domain) rows)) [
        | inl b ↦
            rw (entered, b)
              (known k domain (with_key (λ (d : Domain). d.domain) domain rows)
                (with_key (λ (d : Domain). d.domain) k rows) (sym there ∙ b)
                (λ e. ap (λ x. with_key (λ (d : Domain). d.domain) x rows) e))
        | inr b ↦
            let (absent, at) =
              insert_unique-cases (λ (d : Domain). d.domain) k row rows (rows ++ row ∷ []) (rw b) in
            rw (entered, b)
              (at ∙ elim (Bool-cases (domain == k)) [
                | inl q ↦
                    let same = (eq_iff domain k).0 q in
                    rw (q, rw same at absent) (ap (λ x. some (root_domain x)) same)
                | inr q ↦ rw q (elim (Option-cases (with_key (λ (d : Domain). d.domain) k rows)) [
                  | inl e ↦ rw e
                  | inr (d, e) ↦ rw e
                ])
              ])
      ]

  pub with_key-inserted :
      (k : String) (l : List String) (rows : List Domain)
      → with_key (λ d. d.domain) k (inserted l rows)
        ≡ domain_or (with_key (λ d. d.domain) k rows) (is_listed k l) k
  with_key-inserted k [] rows = elim (Option-cases (with_key (λ (d : Domain). d.domain) k rows)) [
    | inl e ↦ rw e
    | inr (d, e) ↦ rw e
  ]
  with_key-inserted k (domain ∷ rest) rows =
      with_key-inserted k rest (entered domain rows)
      ∙ rw (with_key-entered k domain rows)
          (elim (Option-cases (with_key (λ (d : Domain). d.domain) k rows)) [
            | inl e ↦ rw e (elim (Bool-cases (domain == k)) [ inl q ↦ rw q | inr q ↦ rw q ])
            | inr (d, e) ↦ rw e
          ])

-- ===== src/Sqlite/WellFormed.antt =====
-- The invariant of the database file.
use obligator.Base.{
  ℕ, ◌≡◌, refl, ap, ◌∙◌, String, Bool, true, Result, ok, ◌>>=◌, >>=-eq-ok, ok-injective, ok_or,
  subst, List, [], ◌∷◌, map, length, Bool-cases, inl, inr, Result-cases, suc,
}
use obligator.Types.{OAuth2Provider, SmtpConfig, User, Domain}
use obligator.Sqlite.Tables.{
  SqliteDatabase, ConfigRow, statement, new_sqlite_database_with_db, insert_unique,
}
use obligator.Sqlite.Keys.{IsKeyed, replace_into-IsKeyed, insert_unique-IsKeyed}
use obligator.Sqlite.{
  set_jwks_json, set_smtp_config, set_display_name, set_public, set_forward_auth_passthrough,
  set_prefix, add_email_validation_request, add_domain, set_user, set_oauth2_provider, hash,
}

-- One row of settings, and no key twice.
pub record IsWellFormed (s : SqliteDatabase) : Type 0 where
  pub one_config : length s.config ≡ 1
  pub users_keyed : IsKeyed (λ u. u.id) s.users
  pub providers_keyed : IsKeyed (λ q. q.id) s.oauth2_providers
  pub domains_keyed : IsKeyed (λ d. d.domain) s.domains

-- A file with no table yet.
abbrev pub empty : ℕ → SqliteDatabase
empty clock = record {
  reachable = true;
  clock = clock;
  config = [];
  requests = [];
  domains = [];
  users = [];
  oauth2_providers = [];
}

pub after_statement :
    (s s' : SqliteDatabase) (f : SqliteDatabase → Result SqliteDatabase)
    → (statement s >>= f) ≡ ok s'
    → f s ≡ ok s'
after_statement s s' f e = elim (Bool-cases s.reachable) [
  | inl b ↦ simp b at e
  | inr b ↦ cc (simp b at e)
]

pub statement-reachable :
    (s s' : SqliteDatabase) (f : SqliteDatabase → Result SqliteDatabase)
    → (statement s >>= f) ≡ ok s'
    → s.reachable ≡ true
statement-reachable s s' f e = elim (Bool-cases s.reachable) [
  | inl b ↦ b
  | inr b ↦ cc (simp b at e)
]

-- The calls that change the database.
pub data Call : Type 0 where
  jwks_json display_name prefix : String → Call
  public forward_auth_passthrough : Bool → Call
  smtp : SmtpConfig → Call
  request domain : String → String → Call
  user : User → Call
  provider : OAuth2Provider → Call

length-map : (f : ConfigRow → ConfigRow) (rows : List ConfigRow) → length (map f rows) ≡ length rows
length-map f [] = refl
length-map f (row ∷ rows) = ap suc (length-map f rows)

module _ (sha256 hex : String → String) (marshal : SmtpConfig → Result String)
    (unmarshal : String → Result SmtpConfig) where
  pub apply : Call → SqliteDatabase → Result SqliteDatabase
  apply (jwks_json v) = set_jwks_json sha256 hex marshal unmarshal v
  apply (display_name v) = set_display_name sha256 hex marshal unmarshal v
  apply (prefix v) = set_prefix sha256 hex marshal unmarshal v
  apply (public v) = set_public sha256 hex marshal unmarshal v
  apply (forward_auth_passthrough v) = set_forward_auth_passthrough sha256 hex marshal unmarshal v
  apply (smtp v) = set_smtp_config sha256 hex marshal unmarshal v
  apply (request id email) = add_email_validation_request sha256 hex marshal unmarshal id email
  apply (domain d owner) = add_domain sha256 hex marshal unmarshal d owner
  apply (user u) = set_user sha256 hex marshal unmarshal u
  apply (provider q) = set_oauth2_provider sha256 hex marshal unmarshal q

  config-IsWellFormed :
      (s : SqliteDatabase) (f : ConfigRow → ConfigRow)
      → IsWellFormed s
      → IsWellFormed (record s { config = map f s.config })
  config-IsWellFormed s f w = record {
    one_config = length-map f s.config ∙ w.one_config;
    users_keyed = w.users_keyed;
    providers_keyed = w.providers_keyed;
    domains_keyed = w.domains_keyed;
  }

  update-IsWellFormed :
      (s s' : SqliteDatabase) (f : ConfigRow → ConfigRow)
      → (statement s >>= λ t. ok (record t { config = map f t.config })) ≡ ok s'
      → IsWellFormed s
      → IsWellFormed s'
  update-IsWellFormed s s' f e w =
      subst IsWellFormed (ok-injective _ _ (after_statement s s' _ e)) (config-IsWellFormed s f w)

  add_domain-IsWellFormed :
      (d owner : String) (s s' : SqliteDatabase)
      → add_domain sha256 hex marshal unmarshal d owner s ≡ ok s'
      → IsWellFormed s
      → IsWellFormed s'
  unfolding add_domain
  add_domain-IsWellFormed d owner s s' e w =
      let row : Domain = record {
        hashed_owner_id = hash sha256 hex marshal unmarshal owner;
        domain = d;
      } in
      let (rows, e1, e2) =
        >>=-eq-ok (insert_unique (λ (o : Domain). o.domain) row s.domains) _ s'
          (after_statement s s' _ e) in
      subst IsWellFormed (ok-injective _ _ e2) (record {
        one_config = w.one_config;
        users_keyed = w.users_keyed;
        providers_keyed = w.providers_keyed;
        domains_keyed =
            insert_unique-IsKeyed (λ (o : Domain). o.domain) row s.domains rows e1 w.domains_keyed;
      })

  apply-IsWellFormed :
      (c : Call) (s s' : SqliteDatabase) → apply c s ≡ ok s' → IsWellFormed s → IsWellFormed s'
  unfolding apply set_jwks_json set_display_name set_prefix set_public set_forward_auth_passthrough
      set_smtp_config add_email_validation_request set_user set_oauth2_provider
  apply-IsWellFormed (jwks_json v) s s' e w = update-IsWellFormed s s' _ e w
  apply-IsWellFormed (display_name v) s s' e w = update-IsWellFormed s s' _ e w
  apply-IsWellFormed (prefix v) s s' e w = update-IsWellFormed s s' _ e w
  apply-IsWellFormed (public v) s s' e w = update-IsWellFormed s s' _ e w
  apply-IsWellFormed (forward_auth_passthrough v) s s' e w = update-IsWellFormed s s' _ e w
  apply-IsWellFormed (smtp v) s s' e w =
      let (json, e1, e2) = >>=-eq-ok (marshal v) _ s' e in update-IsWellFormed s s' _ e2 w
  apply-IsWellFormed (request id email) s s' e w =
      subst IsWellFormed (ok-injective _ _ (after_statement s s' _ e)) (record {
        one_config = w.one_config;
        users_keyed = w.users_keyed;
        providers_keyed = w.providers_keyed;
        domains_keyed = w.domains_keyed;
      })
  apply-IsWellFormed (domain d owner) s s' e w = add_domain-IsWellFormed d owner s s' e w
  apply-IsWellFormed (user u) s s' e w =
      subst IsWellFormed (ok-injective _ _ (after_statement s s' _ e)) (record {
        one_config = w.one_config;
        users_keyed = replace_into-IsKeyed (λ (v : User). v.id) u s.users w.users_keyed;
        providers_keyed = w.providers_keyed;
        domains_keyed = w.domains_keyed;
      })
  apply-IsWellFormed (provider q) s s' e w =
      subst IsWellFormed (ok-injective _ _ (after_statement s s' _ e)) (record {
        one_config = w.one_config;
        users_keyed = w.users_keyed;
        providers_keyed =
            replace_into-IsKeyed (λ (o : OAuth2Provider). o.id) q s.oauth2_providers
              w.providers_keyed;
        domains_keyed = w.domains_keyed;
      })

  -- A call that fails changes nothing.
  abbrev pub run : SqliteDatabase → List Call → SqliteDatabase
  run s [] = s
  run s (c ∷ cs) = run (ok_or s (apply c s)) cs

  run-step : (c : Call) (s : SqliteDatabase) → IsWellFormed s → IsWellFormed (ok_or s (apply c s))
  run-step c s w = elim (Result-cases (apply c s)) [
    | inl (s', e) ↦ rw e (apply-IsWellFormed c s s' e w)
    | inr (m, e) ↦ rw e w
  ]

  run_from : (s : SqliteDatabase) (cs : List Call) → IsWellFormed s → IsWellFormed (run s cs)
  run_from s [] w = w
  run_from s (c ∷ cs) w = run_from (ok_or s (apply c s)) cs (run-step c s w)

  -- A database made from an empty file keeps one row of settings, and unique users, providers and
  -- domains, whatever calls follow and whichever of them fail.
  pub run-new_sqlite_database-IsWellFormed :
      (clock : ℕ) (s : SqliteDatabase) (cs : List Call)
      → new_sqlite_database_with_db (empty clock) ≡ ok s
      → IsWellFormed (run s cs)
  unfolding new_sqlite_database_with_db
  run-new_sqlite_database-IsWellFormed clock s cs e = run_from s cs (
      subst IsWellFormed (ok-injective _ _ e)
        (record { one_config = refl; users_keyed = tt; providers_keyed = tt; domains_keyed = tt }))

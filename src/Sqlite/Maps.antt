-- ===== src/Sqlite/Maps.antt =====
-- The getters after the setters.
use obligator.Base.{
  ◌≡◌, refl, ◌>>=◌, List, [], ◌∷◌, map, String, false, Result, ok, is_ok, ok-injective, >>=-eq-ok,
  if◌then◌else◌, ◌==◌, Bool-cases, inl, inr,
}
use obligator.Types.{OAuth2Provider, SmtpConfig, Domain}
use obligator.Sqlite.Tables.{SqliteDatabase, ConfigRow, first_row}
use obligator.Sqlite.Keys.{with_key-replace_into, insert_unique-cases}
use obligator.Sqlite.WellFormed.{after_statement, statement-reachable}
use obligator.Sqlite.{
  set_oauth2_provider, get_oauth2_provider_by_id, add_domain, get_domain, hash, get_jwks_json,
  set_jwks_json,
}

module _ (sha256 hex : String → String) (marshal : SmtpConfig → Result String)
    (unmarshal : String → Result SmtpConfig) where
  -- A provider that was set is found by its id, in place of one with that id; all others are found
  -- as before.
  pub get_oauth2_provider_by_id-set_oauth2_provider :
      (q : OAuth2Provider) (s s' : SqliteDatabase) (id : String)
      → set_oauth2_provider sha256 hex marshal unmarshal q s ≡ ok s'
      → get_oauth2_provider_by_id sha256 hex marshal unmarshal id s'
        ≡ (if q.id == id then ok q else get_oauth2_provider_by_id sha256 hex marshal unmarshal id s)
  unfolding set_oauth2_provider get_oauth2_provider_by_id
  get_oauth2_provider_by_id-set_oauth2_provider q s s' id e =
      let up = statement-reachable s s' _ e in
      rw (← ok-injective _ _ (after_statement s s' _ e)) (
        simp up (
          rw (with_key-replace_into (λ (o : OAuth2Provider). o.id) id q s.oauth2_providers)
            (elim (Bool-cases (q.id == id)) [ inl b ↦ simp b | inr b ↦ simp b ])))

  -- A domain that was added is found with the hash of its owner, and was not there before; all
  -- others are found as before.
  pub get_domain-add_domain :
      (d owner : String) (s s' : SqliteDatabase) (k : String)
      → add_domain sha256 hex marshal unmarshal d owner s ≡ ok s'
      → (is_ok (get_domain sha256 hex marshal unmarshal d s) ≡ false)
        × (get_domain sha256 hex marshal unmarshal k s' ≡ (
            if d == k
            then ok
                (record { hashed_owner_id = hash sha256 hex marshal unmarshal owner; domain = d })
            else get_domain sha256 hex marshal unmarshal k s))
  unfolding add_domain get_domain
  get_domain-add_domain d owner s s' k e =
      let up = statement-reachable s s' _ e in
      let row : Domain = record {
        hashed_owner_id = hash sha256 hex marshal unmarshal owner;
        domain = d;
      } in
      let (rows, eq, out) = >>=-eq-ok _ _ _ (after_statement s s' _ e) in
      let (absent, found) =
        insert_unique-cases (λ (o : Domain). o.domain) k row s.domains rows eq in
      rw (← ok-injective _ _ out) (
        simp up (
          rw (found, absent)
            (refl, elim (Bool-cases (d == k)) [ inl b ↦ simp b | inr b ↦ simp b ])))

  first_row-map :
      (rows : List ConfigRow) (old json : String)
      → (first_row rows >>= λ row. ok row.jwks_json) ≡ ok old
      → (first_row (map (λ (row : ConfigRow). record row { jwks_json = json }) rows) >>= λ row.
          ok row.jwks_json)
        ≡ ok json
  first_row-map [] old json e = cc
  first_row-map (row ∷ rows) old json e = refl

  -- A key set that was stored is read back, where one could be read before.
  pub get_jwks_json-set_jwks_json :
      (old json : String) (s s' : SqliteDatabase)
      → get_jwks_json sha256 hex marshal unmarshal s ≡ ok old
      → set_jwks_json sha256 hex marshal unmarshal json s ≡ ok s'
      → get_jwks_json sha256 hex marshal unmarshal s' ≡ ok json
  unfolding get_jwks_json set_jwks_json
  get_jwks_json-set_jwks_json old json s s' e1 e2 =
      let up = statement-reachable s s' _ e2 in
      rw (← ok-injective _ _ (after_statement s s' _ e2))
        (simp up (first_row-map s.config old json (simp up at e1)))

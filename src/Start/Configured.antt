-- ===== src/Start/Configured.antt =====
-- What the start of the primary leaves in the database.
use obligator.Base.{
  ◌≡◌, refl, ap, ◌∙◌, String, Bool, true, false, not, ◌||◌, ◌==◌, Result, ok, ok_or, ok-injective,
  err, Option, none, some, List, [], ◌∷◌, if◌then◌else◌, Result-cases, inl, inr, arith,
}
use obligator.Types.{OAuth2Provider, SmtpConfig, User, Domain}
use obligator.Platform.{Database}
use obligator.Sqlite.Tables.{SqliteDatabase, ConfigRow, insert_unique}
use obligator.Sqlite.Keys.{with_key}
use obligator.Sqlite.{sqlite}
use obligator.Start.{
  ServerConfig, configure, email_user, put_domains, put_users, put_provider_list, put_smtp, put_if,
  provider_list,
}
use obligator.Start.Rows.{
  replaced, replaced_all, inserted, entered, root_domain, last_provider, provider_or, domain_or,
  is_listed, with_key-replaced, with_key-replaced_all, with_key-inserted,
}

module _ (sha256 hex : String → String) (marshal : SmtpConfig → Result String)
    (unmarshal : String → Result SmtpConfig) where
  abbrev db : Database SqliteDatabase
  db = sqlite sha256 hex marshal unmarshal

  -- A database that the driver reaches, with one row of settings.
  abbrev file : ConfigRow → SqliteDatabase → SqliteDatabase
  file row s = record s { reachable = true; config = row ∷ [] }

  put_users-replaced :
      (l : List String) (row : ConfigRow) (s : SqliteDatabase)
      → put_users db l (file row s) ≡ ok (file row (record s { users = replaced l s.users }))
  unfolding put_users sqlite
  put_users-replaced [] row s = refl
  put_users-replaced (user_id ∷ rest) row s =
      put_users-replaced rest row (record s { users = replaced (user_id ∷ []) s.users })

  put_provider_list-replaced :
      (l : List OAuth2Provider) (row : ConfigRow) (s : SqliteDatabase)
      → put_provider_list db l (file row s)
        ≡ ok (file row (record s { oauth2_providers = replaced_all l s.oauth2_providers }))
  unfolding put_provider_list sqlite
  put_provider_list-replaced [] row s = refl
  put_provider_list-replaced (provider ∷ rest) row s =
      put_provider_list-replaced rest row
        (record s { oauth2_providers = replaced_all (provider ∷ []) s.oauth2_providers })

  entered_next :
      (domain : String) (row : ConfigRow) (s : SqliteDatabase)
      → ok_or (file row s) (db.add_domain domain "root" (file row s))
        ≡ file row (record s { domains = entered sha256 hex marshal unmarshal domain s.domains })
  unfolding sqlite entered
  entered_next domain row s =
      elim (Result-cases (
        insert_unique (λ (d : Domain). d.domain) (root_domain sha256 hex marshal unmarshal domain)
          s.domains)) [ inl (rows, q) ↦ rw (q, entered) | inr (m, q) ↦ rw (q, entered) ]

  put_domains-inserted :
      (l : List String) (row : ConfigRow) (s : SqliteDatabase)
      → put_domains db l (file row s)
        ≡ file row (record s { domains = inserted sha256 hex marshal unmarshal l s.domains })
  unfolding put_domains
  put_domains-inserted [] row s = refl
  put_domains-inserted (domain ∷ rest) row s =
      ap (put_domains db rest) (entered_next domain row s)
      ∙ put_domains-inserted rest row
          (record s { domains = entered sha256 hex marshal unmarshal domain s.domains })

  -- What json.Marshal makes of the mail settings, if there are any.
  abbrev pub smtp_json : Option SmtpConfig → Option String → Result (Option String)
  smtp_json none old = ok old
  smtp_json (some smtp) old = elim (marshal smtp) [ ok json ↦ ok (some json) | err m ↦ err m ]

  put_smtp-file :
      (o : Option SmtpConfig) (json : Option String) (row : ConfigRow) (s : SqliteDatabase)
      → smtp_json o row.smtp_config_json ≡ ok json
      → put_smtp db o (file row s) ≡ ok (file (record row { smtp_config_json = json }) s)
  unfolding put_smtp sqlite
  put_smtp-file none json row s e =
      ap (λ x. ok (file (record row { smtp_config_json = x }) s)) (ok-injective _ _ e)
  put_smtp-file (some smtp) json row s e = elim (Result-cases (marshal smtp)) [
    | inl (text, q) ↦ rw q (
        ap (λ x. ok (file (record row { smtp_config_json = x }) s))
          (ok-injective _ _ (rw (q, smtp_json) at e)))
    | inr (m, q) ↦ cc (rw (q, smtp_json) at e)
  ]

  -- The row of settings: what the configuration sets, and else what was there.
  abbrev pub configured_row : ServerConfig → Option String → ConfigRow → ConfigRow
  configured_row conf json row = record row {
    public = conf.is_public || row.public;
    display_name = if conf.display_name == "obligator" then row.display_name else conf.display_name;
    forward_auth_passthrough = conf.forward_auth_passthrough || row.forward_auth_passthrough;
    prefix =
        if not (conf.prefix == "obligator_") || row.prefix == "" then conf.prefix else row.prefix;
    smtp_config_json = json;
  }

  named :
      (b : Bool) (name : String) (row : ConfigRow) (s : SqliteDatabase)
      → put_if db (not b) (db.set_display_name name) (file row s)
        ≡ file (record row { display_name = if b then row.display_name else name }) s
  unfolding sqlite
  named true name row s = refl
  named false name row s = refl

  prefixed :
      (b : Bool) (prefix : String) (row : ConfigRow) (s : SqliteDatabase)
      → put_if db b (db.set_prefix prefix) (file row s)
        ≡ file (record row { prefix = if b then prefix else row.prefix }) s
  unfolding sqlite
  prefixed true prefix row s = refl
  prefixed false prefix row s = refl

  passing :
      (b : Bool) (row : ConfigRow) (s : SqliteDatabase)
      → put_if db b (db.set_forward_auth_passthrough true) (file row s)
        ≡ file (record row { forward_auth_passthrough = b || row.forward_auth_passthrough }) s
  unfolding sqlite
  passing true row s = refl
  passing false row s = refl

  opened :
      (b : Bool) (row : ConfigRow) (s : SqliteDatabase)
      → put_if db b (db.set_public true) (file row s)
        ≡ file (record row { public = b || row.public }) s
  unfolding sqlite
  opened true row s = refl
  opened false row s = refl

  abbrev outcome : ServerConfig → Option String → ConfigRow → SqliteDatabase → SqliteDatabase
  outcome conf json row s = file (configured_row conf json row) (record s {
    users = replaced conf.users s.users;
    domains = inserted sha256 hex marshal unmarshal conf.domains s.domains;
    oauth2_providers = replaced_all (provider_list db conf.oauth2_providers) s.oauth2_providers;
  })

  configure-outcome :
      (conf : ServerConfig) (json : Option String) (row : ConfigRow) (s : SqliteDatabase)
      → smtp_json conf.smtp row.smtp_config_json ≡ ok json
      → configure db conf row.prefix (file row s) ≡ ok (outcome conf json row s)
  unfolding configure
  configure-outcome conf json row s e = rw (
    put_smtp-file conf.smtp json row s e,
    prefixed _ _ _ s,
    named _ _ _ s,
    put_domains-inserted _ _ _,
    put_users-replaced _ _ _,
    passing _ _ _,
    opened _ _ _,
    put_provider_list-replaced _ _ _,
  )

  -- The database as the configuration wants it. Nothing is taken out: what an earlier
  -- configuration has put there stays.
  pub record IsConfigured (conf : ServerConfig) (json : Option String) (row : ConfigRow)
      (s s' : SqliteDatabase) : Type 0 where
    pub settings : s'.config ≡ configured_row conf json row ∷ []
    pub users :
        (k : String)
        → with_key (λ (u : User). u.id) k s'.users ≡ (
            if is_listed k conf.users
            then some (email_user k)
            else with_key (λ (u : User). u.id) k s.users)
    pub domains :
        (k : String)
        → with_key (λ (d : Domain). d.domain) k s'.domains
          ≡ domain_or sha256 hex marshal unmarshal
              (with_key (λ (d : Domain). d.domain) k s.domains)
              (is_listed k conf.domains)
              k
    pub providers :
        (k : String)
        → with_key (λ (o : OAuth2Provider). o.id) k s'.oauth2_providers
          ≡ provider_or
              (last_provider k (provider_list db conf.oauth2_providers))
              (with_key (λ (o : OAuth2Provider). o.id) k s.oauth2_providers)
    pub requests : s'.requests ≡ s.requests

  -- When the primary starts on a database that it reaches and whose mail settings it can write, the
  -- configuration is stored without an error: each setting that differs from its default is the
  -- configuration's and all others are what they were; the listed users are users, beside those
  -- that were; the listed domains belong to root, unless they stood there before; and of the
  -- listed providers the last with an id replaces the one that had it.
  pub configure-IsConfigured :
      (conf : ServerConfig) (json : Option String) (row : ConfigRow) (s : SqliteDatabase)
      → s.reachable ≡ true
      → s.config ≡ row ∷ []
      → smtp_json conf.smtp row.smtp_config_json ≡ ok json
      → (s' : SqliteDatabase) × (configure db conf row.prefix s ≡ ok s')
        × IsConfigured conf json row s s'
  configure-IsConfigured conf json row s up one e =
      let same : s ≡ file row s = ground arith in
      (
        outcome conf json row s,
        ap (configure db conf row.prefix) same ∙ configure-outcome conf json row s e,
        record {
          settings = refl;
          users = λ k. with_key-replaced k conf.users s.users;
          domains = λ k. with_key-inserted sha256 hex marshal unmarshal k conf.domains s.domains;
          providers = λ k.
              with_key-replaced_all k (provider_list db conf.oauth2_providers) s.oauth2_providers;
          requests = refl;
        },
      )

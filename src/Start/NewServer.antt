-- ===== src/Start/NewServer.antt =====
-- obligator.go, NewServer: the parts in the order in which they are made. What opens files and sockets
-- is a parameter.
use obligator.Base.{
  ℕ, String, ◌⧺◌, Result, ok, err, ok_or, Option, none, some, List, [], ◌∷◌, insert, ◌==◌,
  if◌then◌else◌, map,
}
use obligator.Types.{Domain, OAuth2Provider}
use obligator.Platform.{Platform}
use obligator.Cluster.{Cluster, i_am_the_primary, new_cluster}
use obligator.Proxy.{Proxy, HttpCall, Answer, new_proxy, add_domains}
use obligator.Metadata.{new_oauth2_metadata_manager}
use obligator.Metadata.Lock.{System, starting}
use obligator.Jose.{get_jwks}
use obligator.Jose.Generate.{KeyTools, new_jose}
use obligator.Api.{new_api}
use obligator.Start.{ServerConfig, with_defaults, configure}

-- How NewServer ends: with a server, with nil, by os.Exit or by a panic.
pub data Started (A : Type 0) : Type 0 where
  running : A → Started A
  no_server exited crashed : Started A

infixl 5 ◌>>=◌
abbrev pub ◌>>=◌ : {A B : Type 0} → Started A → (A → Started B) → Started B
running a >>= f = f a
no_server >>= f = no_server
exited >>= f = exited
crashed >>= f = crashed

-- checkErr, and the error paths that print and exit.
abbrev pub or_exit : {A : Type 0} → Result A → Started A
or_exit (ok a) = running a
or_exit (err m) = exited

abbrev pub or_crash : {A : Type 0} → Option A → Started A
or_crash (some a) = running a
or_crash none = crashed

-- What NewServer is given from outside.
pub record Surroundings (p : Platform) (Remote : Type 0) : Type 1 where
  -- sql.Open of the file at filepath.Join of a directory and a name, and
  -- NewSqliteDatabaseWithDb, which makes the tables and the configuration row that are not there.
  pub sql_open : String → String → Result p.Db
  pub with_tables : p.Db → Result p.Db
  pub fly_alloc_id : String
  -- fs.ReadFile of an embedded file.
  pub read_file : String → Result String
  pub listen : String → String → Result (Unit {0})
  pub parse_templates : Result (Unit {0})
  pub open_geo_db : String → Result (Unit {0})
  pub fly_io_token : String
  pub fly_io_app_id : String
  pub send : HttpCall → Remote → Remote × Result Answer
  pub decimal : ℕ → String
  pub tools : KeyTools p

-- The server: its configuration, the database, the instance of the cluster, what is left of the random
-- source, the reverse proxy, the providers' metadata, whose first update has begun, and their logos.
pub record Server (p : Platform) (Remote : Type 0) : Type 0 where
  pub config : ServerConfig
  pub db : p.Db
  pub cluster : Cluster
  pub random : p.Source
  pub proxy : Proxy
  pub remote : Remote
  pub metadata : System
  pub provider_logo_map : List (String × String)

module _ (p : Platform) {Remote : Type 0} (outside : Surroundings p Remote) where
  open p use {Db, db, Source}

  abbrev pub new_sqlite_database : String → String → Result Db
  new_sqlite_database dir name = elim (outside.sql_open dir name) [
    | ok opened ↦ outside.with_tables opened
    | err m ↦ err m
  ]

  -- A database that was passed in, or else the file.
  abbrev pub database_of : ServerConfig → Option Db → Result Db
  database_of conf (some d) = ok d
  database_of conf none = new_sqlite_database conf.database_dir (conf.db_prefix ⧺ "db.sqlite")

  abbrev pub configured : ServerConfig → String → Db → Result Db
  configured conf prefix d = if i_am_the_primary p then configure db conf prefix d else ok d

  abbrev pub geo_db_of : String → Started (Unit {0})
  geo_db_of path =
      if path == ""
      then running tt
      else elim (outside.open_geo_db path) [ ok u ↦ running tt | err m ↦ no_server ]

  abbrev pub domain_names : List Domain → List String
  domain_names = map (λ d. d.domain)

  abbrev pub updating : System
  updating = record { manager = new_oauth2_metadata_manager; phase = starting }

  -- NewProxy and the loop over the domains of the database.
  abbrev pub proxy_for : ServerConfig → String → Remote → Remote × Option Proxy
  proxy_for conf prefix remote =
      new_proxy outside.send outside.decimal outside.fly_io_token outside.fly_io_app_id
        conf.proxy_type conf.port prefix remote

  abbrev logo_of : OAuth2Provider → Result String
  logo_of provider = elim (outside.read_file ("assets/logo_" ⧺ provider.id ⧺ ".svg")) [
    | ok logo ↦ ok logo
    | err m ↦ outside.read_file "assets/logo_generic_openid.svg"
  ]

  -- buildProviderLogoMap over the providers of the database.
  unfoldable pub build_provider_logo_map :
      List OAuth2Provider → List (String × String) → Started (List (String × String))
  build_provider_logo_map [] logos = running logos
  build_provider_logo_map (provider ∷ rest) logos = or_exit (logo_of provider) >>= λ logo.
      build_provider_logo_map rest (insert provider.id logo logos)

  -- NewAddIdentityEmailHandler: a key set without a key is a panic, on the message of a nil error.
  unfoldable pub new_add_identity_email_handler : Db → Started (Unit {0})
  new_add_identity_email_handler d = do
    private_jwks ← or_exit (get_jwks p d)
    public_jwks ← or_exit (p.public_set_of private_jwks)
    priv_key ← or_crash (p.first_key private_jwks)
    pub_key ← or_crash (p.first_key public_jwks)
    prefix ← or_exit (db.get_prefix d)
    running tt

  -- The handlers that can end the process when they are made: of OpenID Connect, of the other
  -- providers, of e-mail, of GAML and of IndieAuth. They only read.
  unfoldable pub new_handlers : Db → Started (List (String × String))
  new_handlers d = do
    oidc_prefix ← or_exit (db.get_prefix d)
    providers ← or_exit (db.get_oauth2_providers d)
    logos ← build_provider_logo_map providers []
    oauth2_prefix ← or_exit (db.get_prefix d)
    email ← new_add_identity_email_handler d
    gaml_prefix ← or_exit (db.get_prefix d)
    indie_auth_prefix ← or_exit (db.get_prefix d)
    running logos

  unfoldable pub new_server : ServerConfig → Option Db → Source → Remote → Started (Server p Remote)
  new_server given opened src remote = do
    let conf = with_defaults given
    d ← or_exit (database_of conf opened)
    stored_prefix ← or_exit (db.get_prefix d)
    let clustered = new_cluster p outside.fly_alloc_id src
    written ← or_exit (configured conf stored_prefix d)
    let domains = domain_names (ok_or [] (db.get_domains written))
    prefix ← or_exit (db.get_prefix written)
    let proxied = proxy_for conf prefix remote
    proxy ← or_crash proxied.1
    let told = add_domains outside.send outside.decimal proxy domains proxied.0
    api ← or_exit (new_api p outside.listen conf.api_socket_dir written)
    keyed ← or_exit (new_jose p outside.tools written clustered.1)
    templates ← or_exit outside.parse_templates
    geo_db ← geo_db_of conf.geo_db_path
    logos ← new_handlers keyed.0
    running (record {
      config = conf;
      db = keyed.0;
      cluster = clustered.0;
      random = keyed.1;
      proxy = proxy;
      remote = told;
      metadata = updating;
      provider_logo_map = logos;
    })

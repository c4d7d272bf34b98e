-- ===== src/Start/Routes.antt =====
-- The paths: which handler NewServer's multiplexer gives a path to, and which function each handler's
-- own multiplexer then calls.
use obligator.Base.{String, Option, none, some, List, [], ◌∷◌}
use obligator.Start.ServeMux.{strip_prefix, text_length, ends_in_slash, longest, serve_mux}

-- The handlers that NewServer makes.
pub data Part : Type 0 where
  site oidc upstream email gaml qr indie_auth domains fed_cm fed_cm_login : Part

-- The functions behind the paths of the handlers.
pub data Endpoint : Type 0 where
  root user_page logo ip validate login_fed_cm_auto login logout no_account debug : Endpoint
  openid_configuration end_session jwks register userinfo auth approve token : Endpoint
  login_oauth2 callback : Endpoint
  login_email email_sent magic complete_email_login : Endpoint
  login_gaml gaml_code complete_gaml_login : Endpoint
  login_qr qr_code send receive : Endpoint
  indie_login indie_confirm indie_token indie_document : Endpoint
  domain_page add_domain : Endpoint
  web_identity fed_cm_config accounts client_metadata id_assertion : Endpoint
  login_fed_cm complete_login_fed_cm : Endpoint

-- A handler, and the prefix that http.StripPrefix takes off its paths.
pub record Mount : Type 0 where
  pub part : Part
  pub prefix : String

abbrev pub whole : Part → Mount
whole part = record { part = part; prefix = "" }

abbrev pub below : Part → String → Mount
below part prefix = record { part = part; prefix = prefix }

-- mux.Handle in NewServer: the handler, and the prefix that is stripped from the path.
unfoldable pub server_routes : List (String × Mount)
server_routes =
    ("/", whole site)
    ∷ ("/.well-known/openid-configuration", whole oidc)
    ∷ ("/jwks", whole oidc)
    ∷ ("/register", whole oidc)
    ∷ ("/userinfo", whole oidc)
    ∷ ("/auth", whole oidc)
    ∷ ("/approve", whole oidc)
    ∷ ("/token", whole oidc)
    ∷ ("/end-session", whole oidc)
    ∷ ("/login-oauth2", whole upstream)
    ∷ ("/callback", whole upstream)
    ∷ ("/login-email", whole email)
    ∷ ("/email-sent", whole email)
    ∷ ("/magic", whole email)
    ∷ ("/confirm-magic", whole email)
    ∷ ("/complete-email-login", whole email)
    ∷ ("/login-gaml", whole gaml)
    ∷ ("/gaml-code", whole gaml)
    ∷ ("/complete-gaml-login", whole gaml)
    ∷ ("/login-qr", whole qr)
    ∷ ("/qr", whole qr)
    ∷ ("/send", whole qr)
    ∷ ("/receive", whole qr)
    ∷ ("/users/", whole indie_auth)
    ∷ ("/.well-known/oauth-authorization-server", whole indie_auth)
    ∷ ("/indieauth/", below indie_auth "/indieauth")
    ∷ ("/domains", whole domains)
    ∷ ("/add-domain", whole domains)
    ∷ ("/.well-known/web-identity", whole fed_cm)
    ∷ ("/fedcm/", below fed_cm "/fedcm")
    ∷ ("/login-fedcm", whole fed_cm_login)
    ∷ ("/complete-login-fedcm", whole fed_cm_login)
    ∷ []

-- mux.HandleFunc in the handlers.
unfoldable pub endpoints : Part → List (String × Endpoint)
endpoints site =
    ("/", root)
    ∷ ("/u/", user_page)
    ∷ ("/logo.png", logo)
    ∷ ("/ip", ip)
    ∷ ("/validate", validate)
    ∷ ("/login-fedcm-auto", login_fed_cm_auto)
    ∷ ("/login", login)
    ∷ ("/logout", logout)
    ∷ ("/no-account", no_account)
    ∷ ("/debug", debug)
    ∷ []
endpoints oidc =
    ("/.well-known/openid-configuration", openid_configuration)
    ∷ ("/end-session", end_session)
    ∷ ("/jwks", jwks)
    ∷ ("/register", register)
    ∷ ("/userinfo", userinfo)
    ∷ ("/auth", auth)
    ∷ ("/approve", approve)
    ∷ ("/token", token)
    ∷ []
endpoints upstream = ("/login-oauth2", login_oauth2) ∷ ("/callback", callback) ∷ []
endpoints email =
    ("/login-email", login_email)
    ∷ ("/email-sent", email_sent)
    ∷ ("/magic", magic)
    ∷ ("/complete-email-login", complete_email_login)
    ∷ []
endpoints gaml =
    ("/login-gaml", login_gaml)
    ∷ ("/gaml-code", gaml_code)
    ∷ ("/complete-gaml-login", complete_gaml_login)
    ∷ []
endpoints qr =
    ("/login-qr", login_qr) ∷ ("/qr", qr_code) ∷ ("/send", send) ∷ ("/receive", receive) ∷ []
endpoints indie_auth =
    ("/auth", indie_login)
    ∷ ("/confirm", indie_confirm)
    ∷ ("/token", indie_token)
    ∷ ("/.well-known/oauth-authorization-server", indie_document)
    ∷ []
endpoints domains = ("/domains", domain_page) ∷ ("/add-domain", add_domain) ∷ []
endpoints fed_cm =
    ("/.well-known/web-identity", web_identity)
    ∷ ("/config.json", fed_cm_config)
    ∷ ("/accounts", accounts)
    ∷ ("/client-metadata", client_metadata)
    ∷ ("/id-assertion", id_assertion)
    ∷ []
endpoints fed_cm_login =
    ("/login-fedcm", login_fed_cm) ∷ ("/complete-login-fedcm", complete_login_fed_cm) ∷ []

abbrev inside : String → Mount → Option Endpoint
inside path m = elim (strip_prefix m.prefix path) [
  | some rest ↦ serve_mux (endpoints m.part) rest
  | none ↦ none
]

-- What a path of the server reaches; `none` is a 404.
unfoldable pub route : String → Option Endpoint
unfolding serve_mux longest strip_prefix text_length ends_in_slash server_routes endpoints
route path = elim (serve_mux server_routes path) [ none ↦ none | some found ↦ inside path found ]

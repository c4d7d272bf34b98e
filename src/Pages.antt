-- ===== src/Pages.antt =====
-- What a handler writes to the client: texts, the templates with the data they are executed on,
-- and the JSON documents.
use obligator.Base.{ℕ, String, Bool, List}
use obligator.Types.{Identity, Login, OAuth2Provider, User}

-- utils.go, commonData
pub record CommonData : Type 0 where
  pub root_uri : String
  pub display_name : String
  pub identities : List Identity
  pub return_uri : String
  pub disable_header_buttons : Bool

-- What /auth shows.
pub record AuthPage : Type 0 where
  pub client_id : String
  pub remaining_identities : List Identity
  pub previous_logins : List Login
  pub oauth2_providers : List OAuth2Provider
  pub can_email : Bool
  pub disable_qr_login : Bool

-- What /magic shows.
pub record MagicPage : Type 0 where
  pub key : String
  pub different_ips : Bool
  pub different_browsers : Bool
  pub use_geo_db : Bool
  pub og_ip : String
  pub magic_ip : String
  pub instance_id : String

-- What /login shows.
pub record LoginPage : Type 0 where
  pub can_email : Bool
  pub oauth2_providers : List OAuth2Provider
  pub fed_cm : Bool
  pub disable_qr_login : Bool

-- What IndieAuth's /auth shows.
pub record IndieAuthPage : Type 0 where
  pub client_id : String
  pub can_email : Bool
  pub disable_qr_login : Bool
  pub oauth2_providers : List OAuth2Provider

-- The template and its data; `plain` is a template that reads commonData only.
pub data Page : Type 0 where
  plain : String → CommonData → Page
  auth : CommonData → AuthPage → Page
  wildcard_email : CommonData → String → String → String → Page
  logout : CommonData → String → String → Page
  email_magic : CommonData → MagicPage → Page
  qr : CommonData → String → String → String → Page
  login_qr : CommonData → String → String → String → Page
  login : CommonData → LoginPage → Page
  ip : CommonData → String → Page
  gaml : CommonData → String → Page
  domains : CommonData → String → String → String → Page
  indie_auth : CommonData → IndieAuthPage → Page

-- oidc.go, OAuth2ServerMetadata, the fields that the program fills in.
pub record OAuth2ServerMetadata : Type 0 where
  pub issuer : String
  pub authorization_endpoint : String
  pub token_endpoint : String
  pub userinfo_endpoint : String
  pub jwks_uri : String
  pub scopes_supported : List String
  pub response_types_supported : List String
  pub id_token_signing_alg_values_supported : List String
  pub code_challenge_methods_supported : List String
  pub subject_types_supported : List String
  pub registration_endpoint : String
  pub token_endpoint_auth_methods_supported : List String
  pub introspection_endpoint : String
  pub end_session_endpoint : String

-- obligator.go, OAuth2TokenResponse
pub record OAuth2TokenResponse : Type 0 where
  pub access_token : String
  pub token_type : String
  pub expires_in : ℕ
  pub id_token : String

-- obligator.go, UserinfoResponse
pub record UserinfoResponse : Type 0 where
  pub sub : String
  pub email : String

-- indieauth.go, IndieAuthProfile
pub record IndieAuthProfile : Type 0 where
  pub name : String
  pub url : String
  pub photo : String
  pub email : String

-- indieauth.go, IndieAuthResponse
pub record IndieAuthResponse : Type 0 where
  pub me_uri : String
  pub profile : IndieAuthProfile
  pub access_token : String
  pub token_type : String

-- fedcm.go, FedCmAccount, the fields that the program fills in.
pub record Account : Type 0 where
  pub id : String
  pub name : String
  pub email : String

pub data Json : Type 0 where
  provider_urls : List String → Json
  fed_cm_config : String → String → String → List String → Json
  accounts : List Account → Json
  client_metadata : String → String → Json
  fed_cm_error : String → Json
  fed_cm_token : String → String → Json
  metadata : OAuth2ServerMetadata → Json
  token_response : OAuth2TokenResponse → Json
  userinfo : UserinfoResponse → Json
  indie_auth_response : IndieAuthResponse → Json
  registration : String → Json
  providers : List OAuth2Provider → Json
  users : List User → Json
  -- The public key set, as the library writes it.
  jwks : Json

pub data Body : Type 0 where
  text : String → Body
  page : Page → Body
  json : Json → Body

-- ===== src/Types.antt =====
-- The data of obligator.go, database.go, utils.go, add_identity_email.go and qr.go, and the parts
-- of net/http's requests and cookies that the handlers read and write.
use obligator.Base.{ℕ, String, Bool, List}

pub record Identity : Type 0 where
  pub id_type : String
  pub id : String
  pub provider_name : String
  pub name : String
  pub email : String
  pub email_verified : Bool

pub record Login : Type 0 where
  pub id_type : String
  pub id : String
  pub provider_name : String
  pub timestamp : String

-- map[string][]*Login: the logins of each client.
abbrev pub Logins : Type 0
Logins = List (String × List Login)

pub record OAuth2Provider : Type 0 where
  pub id : String
  pub name : String
  pub uri : String
  pub client_id : String
  pub client_secret : String
  pub authorization_uri : String
  pub token_uri : String
  pub scope : String
  pub open_id_connect : Bool

pub record User : Type 0 where
  pub id_type : String
  pub id : String

pub record DbConfig : Type 0 where
  pub is_public : Bool

pub record SmtpConfig : Type 0 where
  pub server : String
  pub username : String
  pub password : String
  pub port : ℕ
  pub sender : String
  pub sender_name : String

pub record EmailValidationCount : Type 0 where
  pub hashed_requester_id : String
  pub count : ℕ

pub record Domain : Type 0 where
  pub hashed_owner_id : String
  pub domain : String

-- The dynamic value of a JWT claim: Go's `interface{}` with the types that the program asserts.
pub data Claim : Type 0 where
  str : String → Claim
  identities : List Identity → Claim
  logins : Logins → Claim
  time : ℕ → Claim
  audience : List String → Claim
  flag : Bool → Claim

pub data SameSite : Type 0 where
  default_mode lax_mode none_mode : SameSite

-- MaxAge of a cookie: 0 leaves the attribute out, a negative number deletes the cookie.
pub data MaxAge : Type 0 where
  session : MaxAge
  seconds : ℕ → MaxAge
  expired : MaxAge

pub record Cookie : Type 0 where
  pub domain : String
  pub name : String
  pub value : String
  pub path : String
  pub secure : Bool
  pub http_only : Bool
  pub max_age : MaxAge
  pub same_site : SameSite

-- The part of a parsed URL that the program reads.
pub record Url : Type 0 where
  pub host : String
  pub path : String

-- A request after ParseForm; a cookie is its name and value.
pub record Request : Type 0 where
  pub method : String
  pub host : String
  pub path : String
  pub raw_query : String
  pub remote_addr : String
  pub form : List (String × List String)
  pub headers : List (String × String)
  pub cookies : List (String × String)

pub record PendingLogin : Type 0 where
  pub email : String
  pub expires_at : ℕ
  pub remote_ip : String

pub record PendingShare : Type 0 where
  pub identities : List Identity
  pub logins : Logins
  pub expires_at : ℕ

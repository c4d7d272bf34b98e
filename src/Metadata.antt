-- ===== src/Metadata.antt =====
-- oauth2.go, OAuth2MetadataManager, and GetOidcConfiguration of add_identity_oauth2.go: the metadata
-- and the keys of the OpenID Connect providers, fetched by a goroutine that holds the mutex.
pub mod Lock
pub mod Snapshot
pub mod Progress
use obligator.Base.{
  ℕ, String, ◌⧺◌, Bool, true, false, not, ◌&&◌, Result, ok, err, or_err, ◌≡◌, refl, arith, Option,
  none, some, List, [], ◌∷◌, if◌then◌else◌, leb, lookup, insert,
}
use obligator.Types.{OAuth2Provider}
use obligator.Pages.{OAuth2ServerMetadata}
use obligator.Upstream.{Reply}

abbrev pub discovery_uri : String → String
discovery_uri base_url = base_url ⧺ "/.well-known/openid-configuration"

-- resp.StatusCode != 200
abbrev pub document_of : Reply OAuth2ServerMetadata → Result OAuth2ServerMetadata
document_of (err m) = err m
document_of (ok (status, doc)) =
    if leb status 200 && leb 200 status then doc else err "Invalid HTTP response"

-- `http_get` is what a GET of the address answers.
unfoldable pub get_oidc_configuration :
    (String → Reply OAuth2ServerMetadata) → String → Result OAuth2ServerMetadata
get_oidc_configuration http_get base_url = document_of (http_get (discovery_uri base_url))

-- A refresher is the address that its cache was made for.
pub record OAuth2MetadataManager : Type 0 where
  pub oidc_configs : List (String × OAuth2ServerMetadata)
  pub jwks_refreshers : List (String × String)

unfoldable pub new_oauth2_metadata_manager : OAuth2MetadataManager
new_oauth2_metadata_manager = record { oidc_configs = []; jwks_refreshers = [] }

unfoldable pub get_meta : String → OAuth2MetadataManager → Result OAuth2ServerMetadata
get_meta provider_id m = or_err (lookup provider_id m.oidc_configs) "No such provider"

module _ {Keyset : Type 0} where
  -- What the jwx cache of a refresher holds for an address; `none` when it is not there.
  abbrev keyset_at :
      (String → Result Keyset)
      → Option OAuth2ServerMetadata
      → Option String
      → Option (Result Keyset)
  keyset_at cached (some meta) (some cache) = some (cached meta.jwks_uri)
  keyset_at cached _ _ = none

  -- `none` is a panic: a provider that is not in the maps is read through a nil pointer.
  unfoldable pub get_keyset :
      (String → Result Keyset) → String → OAuth2MetadataManager → Option (Result Keyset)
  get_keyset cached provider_id m =
      keyset_at cached (lookup provider_id m.oidc_configs) (lookup provider_id m.jwks_refreshers)

-- How a call ends that waits for another server: no time limit is set, so it may never come back.
pub data Call (A : Type 0) : Type 0 where
  done : A → Call A
  failed : String → Call A
  hangs : Call A

infixl 5 ◌>>=◌
abbrev pub ◌>>=◌ : {A B : Type 0} → Call A → (A → Call B) → Call B
done a >>= f = f a
failed m >>= f = failed m
hangs >>= f = hangs

-- The network during one update: whether the server of an address ever answers, what document it
-- has, and whether its key set can be fetched.
pub record Network : Type 0 where
  pub answers : String → Bool
  pub http_get : String → Reply OAuth2ServerMetadata
  pub refresh : String → Result (Unit {0})

abbrev pub wait : {A : Type 0} → Bool → Result A → Call A
wait false r = hangs
wait true (ok a) = done a
wait true (err m) = failed m

abbrev pub with_provider :
    OAuth2Provider → OAuth2ServerMetadata → OAuth2MetadataManager → OAuth2MetadataManager
with_provider provider meta m = record {
  oidc_configs = insert provider.id meta m.oidc_configs;
  jwks_refreshers = insert provider.id meta.jwks_uri m.jwks_refreshers;
}

-- One round of the loop of Update. An error ends the process.
unfoldable pub add_provider :
    Network → OAuth2Provider → OAuth2MetadataManager → Call OAuth2MetadataManager
add_provider net provider m = if not provider.open_id_connect then done m else (do
  meta ←
      wait (net.answers (discovery_uri provider.uri))
        (get_oidc_configuration net.http_get provider.uri)
  fetched ← wait (net.answers meta.jwks_uri) (net.refresh meta.jwks_uri)
  done (with_provider provider meta m))

unfoldable pub add_providers :
    Network → List OAuth2Provider → OAuth2MetadataManager → Call OAuth2MetadataManager
add_providers net [] m = done m
add_providers net (provider ∷ rest) m = add_provider net provider m >>= add_providers net rest

-- What a call that came back has.
pub >>=-eq-done :
    {A B : Type 0} (x : Call A) (f : A → Call B) (b : B)
    → (x >>= f) ≡ done b
    → (a : A) × (x ≡ done a) × (f a ≡ done b)
>>=-eq-done (done a) f b e = (a, refl, e)
>>=-eq-done (failed m) f b e = cc
>>=-eq-done hangs f b e = cc

pub done-injective : {A : Type 0} (x y : A) → done x ≡ done y → x ≡ y
done-injective x y e = ground arith

pub wait-eq-done :
    {A : Type 0} (answers : Bool) (r : Result A) (a : A) → wait answers r ≡ done a → r ≡ ok a
wait-eq-done true (ok b) a e = ground arith
wait-eq-done true (err m) a e = cc
wait-eq-done false r a e = cc

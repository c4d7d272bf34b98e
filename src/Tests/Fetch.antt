-- ===== src/Tests/Fetch.antt =====
-- The theorems on the providers' metadata at one update, and on the login by FedCM.
use obligator.Base.{◌≡◌, refl, String, Result, ok, List, [], ◌∷◌, or_err, lookup, true}
use obligator.Types.{Request, time, str, audience}
use obligator.Oidc.Endpoints.{server_metadata}
use obligator.Metadata.{
  done as answered, Network, OAuth2MetadataManager, new_oauth2_metadata_manager, get_meta,
  get_keyset, add_provider,
}
use obligator.Metadata.Lock.{
  System, idle, starting, filling, initial, Step, update, read, add, unlock, Reach, here, more,
  log_of,
}
use obligator.Metadata.Snapshot.{latest, keyset_for, Reach-get_meta}
use obligator.Tests.Toy.{Token}
use obligator.Tests.Data.{provider, request}

abbrev network : Network
network = record {
  answers = λ uri. true;
  http_get = λ uri. ok (200, ok (server_metadata "https://idp.example.com"));
  refresh = λ uri. ok tt;
}

abbrev filled : OAuth2MetadataManager
filled = record {
  oidc_configs = ("idp", server_metadata "https://idp.example.com") ∷ [];
  jwks_refreshers = ("idp", "https://idp.example.com/jwks") ∷ [];
}

abbrev begun : System
begun = record { manager = new_oauth2_metadata_manager; phase = starting }

abbrev halfway : System
halfway = record {
  manager = new_oauth2_metadata_manager;
  phase = filling network (provider "idp" ∷ []);
}

abbrev done : System
done = record { manager = filled; phase = filling network [] }

abbrev free : System
free = record { manager = filled; phase = idle }

added : add_provider network (provider "idp") new_oauth2_metadata_manager ≡ answered filled
unfolding add_provider obligator.Metadata.get_oidc_configuration new_oauth2_metadata_manager
    server_metadata
added = refl

abbrev begins : Step initial begun
begins = update refl refl

abbrev reads : Step begun halfway
reads = read network (provider "idp" ∷ []) refl refl

abbrev fetches : Step halfway done
fetches = add network (provider "idp") [] filled refl added refl

abbrev ends : Step done free
ends = unlock network refl refl

-- One update of one provider.
abbrev run : Reach initial free
run = more (more (more (more here begins) reads) fetches) ends

abbrev cached : String → Result String
cached uri = ok uri

Reach-get_meta_example :
    (get_meta "idp" filled ≡ latest (log_of run) "idp")
    × (get_keyset cached "idp" filled ≡ keyset_for cached (latest (log_of run) "idp"))
Reach-get_meta_example = Reach-get_meta cached free run "idp" refl

-- A token that the provider's FedCM made for this server.
abbrev table : List (String × Token)
table =
    ("session", ("iat", time 40) ∷ [])
    ∷ (
      "token",
      ("iss", str "https://idp.example.com")
          ∷ ("aud", audience ("https://id.example.com" ∷ []))
          ∷ ("email", str "ann@example.com")
          ∷ ("exp", time 90)
          ∷ [],
    )
    ∷ []

abbrev completing : Request
completing =
    request (("fedcm-token", "token" ∷ []) ∷ []) [] (("obligator_return_uri", "/login") ∷ [])

abbrev unverified : String → Result Token
unverified text = or_err (lookup text table) "invalid token"

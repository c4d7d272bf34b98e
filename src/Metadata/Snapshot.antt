-- ===== src/Metadata/Snapshot.antt =====
-- Every read of the metadata is a read of one whole update.
use obligator.Base.{
  ◌≡◌, ◌⊎◌, refl, ◌∙◌, sym, ap, String, Bool, true, false, ◌&&◌, ◌==◌, Result, ok, err, Option,
  none, some, List, [], ◌∷◌, if◌then◌else◌, lookup, lookup-insert, Bool-cases, Option-cases, inl,
  inr,
}
use obligator.Types.{OAuth2Provider}
use obligator.Pages.{OAuth2ServerMetadata}
use obligator.Metadata.{
  OAuth2MetadataManager, Network, new_oauth2_metadata_manager, get_meta, get_keyset, add_provider,
  add_providers, get_oidc_configuration, with_provider, discovery_uri, Call, done, wait,
  >>=-eq-done, done-injective, wait-eq-done,
}
use obligator.Metadata.Lock.{
  System, Phase, idle, starting, filling, exited, initial, Step, update, read, read_failed, add,
  add_failed, unlock, Reach, here, more, Log, logged, log_of,
}

abbrev pub serves : String → OAuth2Provider → Bool
serves id provider = provider.open_id_connect && provider.id == id

-- The last OpenID Connect provider with an id.
abbrev pub last_with : String → List OAuth2Provider → Option OAuth2Provider
last_with id [] = none
last_with id (provider ∷ rest) = elim (last_with id rest) [
  | some later ↦ some later
  | none ↦ if serves id provider then some provider else none
]

abbrev pub document_for : Network → Option OAuth2Provider → Result OAuth2ServerMetadata
document_for net none = err "No such provider"
document_for net (some provider) = get_oidc_configuration net.http_get provider.uri

-- What GetMeta is to answer after an update of these providers: the document of the provider.
abbrev pub served : Network → List OAuth2Provider → String → Result OAuth2ServerMetadata
served net providers id = document_for net (last_with id providers)

abbrev pub keyset_for :
    {Keyset : Type 0}
    → (String → Result Keyset)
    → Result OAuth2ServerMetadata
    → Option (Result Keyset)
keyset_for cached (ok meta) = some (cached meta.jwks_uri)
keyset_for cached (err m) = none

abbrev uri_of : Option OAuth2ServerMetadata → Option String
uri_of none = none
uri_of (some meta) = some meta.jwks_uri

-- A refresher stands beside each document, with its address.
abbrev ArePaired : OAuth2MetadataManager → Type 0
ArePaired m = (id : String) → lookup id m.jwks_refreshers ≡ uri_of (lookup id m.oidc_configs)

module _ (net : Network) where
  -- A provider that is skipped, or one whose document was fetched.
  IsAdded : OAuth2Provider → OAuth2MetadataManager → OAuth2MetadataManager → Type 0
  IsAdded provider m m' =
      ((provider.open_id_connect ≡ false) × (m ≡ m'))
      ⊎ ((provider.open_id_connect ≡ true)
          × (meta : OAuth2ServerMetadata) × (get_oidc_configuration net.http_get provider.uri
              ≡ ok meta)
          × (with_provider provider meta m ≡ m'))

  add_provider-IsAdded :
      (provider : OAuth2Provider) (m m' : OAuth2MetadataManager)
      → add_provider net provider m ≡ done m'
      → IsAdded provider m m'
  unfolding add_provider IsAdded
  add_provider-IsAdded provider m m' e = elim (Bool-cases provider.open_id_connect) [
    | inr b ↦ inl (b, done-injective m m' (rw b at e))
    | inl b ↦
        let (meta, e1, r1) =
          >>=-eq-done
            (wait (net.answers (discovery_uri provider.uri))
              (get_oidc_configuration net.http_get provider.uri))
            _ m' (rw b at e) in
        let (u, e2, r2) =
          >>=-eq-done (wait (net.answers meta.jwks_uri) (net.refresh meta.jwks_uri)) _ m' r1 in
        inr (b, meta, wait-eq-done _ _ meta e1, done-injective _ _ r2)
  ]

  get_meta-IsAdded :
      (provider : OAuth2Provider) (m m' : OAuth2MetadataManager) (id : String)
      → IsAdded provider m m'
      → get_meta id m' ≡ (
          if serves id provider
          then get_oidc_configuration net.http_get provider.uri
          else get_meta id m)
  unfolding get_meta IsAdded
  get_meta-IsAdded provider m m' id (inl (b, e)) = rw (← e) (rw b)
  get_meta-IsAdded provider m m' id (inr (b, meta, e1, e)) = rw (← e) (
      rw (b, e1, lookup-insert provider.id id meta m.oidc_configs)
        (elim (Bool-cases (provider.id == id)) [ inl q ↦ rw q | inr q ↦ rw q ]))

  paired-IsAdded :
      (provider : OAuth2Provider) (m m' : OAuth2MetadataManager)
      → IsAdded provider m m'
      → ArePaired m
      → ArePaired m'
  unfolding IsAdded
  paired-IsAdded provider m m' (inl (b, e)) h = rw (← e) h
  paired-IsAdded provider m m' (inr (b, meta, e1, e)) h = rw (← e) (λ id.
      rw
        (
          lookup-insert provider.id id meta m.oidc_configs,
          lookup-insert provider.id id meta.jwks_uri m.jwks_refreshers,
        )
        (elim (Bool-cases (provider.id == id)) [ inl q ↦ rw q | inr q ↦ rw q (h id) ]))

  -- The maps after an update answer for the last provider of an id, or as they did before.
  add_providers-get_meta :
      (providers : List OAuth2Provider) (m m' : OAuth2MetadataManager) (id : String)
      → add_providers net providers m ≡ done m'
      → get_meta id m' ≡ (elim (last_with id providers) [
        | none ↦ get_meta id m
        | some provider ↦ get_oidc_configuration net.http_get provider.uri
      ])
  unfolding add_providers
  add_providers-get_meta [] m m' id e = ap (get_meta id) (sym (done-injective m m' e))
  add_providers-get_meta (provider ∷ rest) m m' id e =
      let (m1, e1, e2) = >>=-eq-done (add_provider net provider m) (add_providers net rest) m' e in
      let step = get_meta-IsAdded provider m m1 id (add_provider-IsAdded provider m m1 e1) in
      add_providers-get_meta rest m1 m' id e2 ∙ elim (Option-cases (last_with id rest)) [
        | inr (later, q) ↦ rw q
        | inl q ↦
            rw q (step ∙ elim (Bool-cases (serves id provider)) [ inl b ↦ rw b | inr b ↦ rw b ])
      ]

  add_providers-ArePaired :
      (providers : List OAuth2Provider) (m m' : OAuth2MetadataManager)
      → add_providers net providers m ≡ done m'
      → ArePaired m
      → ArePaired m'
  unfolding add_providers
  add_providers-ArePaired [] m m' e h = rw (← done-injective m m' e) h
  add_providers-ArePaired (provider ∷ rest) m m' e h =
      let (m1, e1, e2) = >>=-eq-done (add_provider net provider m) (add_providers net rest) m' e in
      add_providers-ArePaired rest m1 m' e2
        (paired-IsAdded provider m m1 (add_provider-IsAdded provider m m1 e1) h)

-- The maps that the latest update is to make.
abbrev whole : Log → Call OAuth2MetadataManager
whole [] = done new_oauth2_metadata_manager
whole ((net, providers) ∷ log) = add_providers net providers new_oauth2_metadata_manager

-- While nobody holds the mutex, the maps are those; while the loop runs, what is left of it leads
-- from the maps to those.
abbrev Consistent : Phase → Log → OAuth2MetadataManager → Type 0
Consistent idle log m = whole log ≡ done m
Consistent (filling net rest) log m = whole log ≡ add_providers net rest m
Consistent starting log m = Unit
Consistent exited log m = Unit

Consistent-moved :
    (t : System) (ph : Phase) (log : Log) (m : OAuth2MetadataManager)
    → t ≡ record { manager = m; phase = ph }
    → Consistent ph log m
    → Consistent t.phase log t.manager
Consistent-moved t ph log m e c = rw e c

Step-Consistent :
    (s t : System) (log : Log) (st : Step s t)
    → Consistent s.phase log s.manager
    → Consistent t.phase (logged st log) t.manager
unfolding add_providers
Step-Consistent s t log (update e q) c = Consistent-moved t _ log _ q tt
Step-Consistent s t log (read net providers e q) c =
    Consistent-moved t (filling net providers) ((net, providers) ∷ log) new_oauth2_metadata_manager
      q refl
Step-Consistent s t log (read_failed e q) c = Consistent-moved t _ log _ q tt
Step-Consistent s t log (add net provider rest m e added q) c =
    Consistent-moved t _ log _ q (rw e at c ∙ rw added)
Step-Consistent s t log (add_failed net provider rest m e refused q) c =
    Consistent-moved t _ log _ q tt
Step-Consistent s t log (unlock net e q) c = Consistent-moved t _ log _ q (rw e at c)

Reach-Consistent : (s : System) (r : Reach initial s) → Consistent s.phase (log_of r) s.manager
Reach-Consistent s here = refl
Reach-Consistent s (more {t} r st) = Step-Consistent t s (log_of r) st (Reach-Consistent t r)

-- What the latest update found for an id.
abbrev pub latest : Log → String → Result OAuth2ServerMetadata
latest [] id = err "No such provider"
latest ((net, providers) ∷ log) id = served net providers id

whole-get_meta :
    (log : Log) (m : OAuth2MetadataManager) (id : String)
    → whole log ≡ done m
    → (get_meta id m ≡ latest log id) × ArePaired m
unfolding get_meta new_oauth2_metadata_manager
whole-get_meta [] m id e = rw (← done-injective _ m e) (refl, λ k. refl)
whole-get_meta ((net, providers) ∷ log) m id e = (
  add_providers-get_meta net providers new_oauth2_metadata_manager m id e
      ∙ elim (Option-cases (last_with id providers)) [ inl q ↦ rw q | inr (found, q) ↦ rw q ],
  add_providers-ArePaired net providers new_oauth2_metadata_manager m e (λ k. refl),
)

module _ {Keyset : Type 0} (cached : String → Result Keyset) where
  keyset_for_paired :
      (m : OAuth2MetadataManager) (id : String)
      → ArePaired m
      → get_keyset cached id m ≡ keyset_for cached (get_meta id m)
  unfolding get_keyset get_meta
  keyset_for_paired m id h =
      rw (h id)
        (elim (Option-cases (lookup id m.oidc_configs)) [ inl e ↦ rw e | inr (meta, e) ↦ rw e ])

  -- However updates and reads were interleaved, a read that gets the mutex is answered by the
  -- latest update as a whole: GetMeta with the document of the last OpenID Connect provider of the
  -- id among those that the update read, or an error if there is none or was no update. GetKeyset
  -- then has the keys of that document, and it panics exactly where GetMeta has an error.
  pub Reach-get_meta :
      (s : System) (r : Reach initial s) (id : String)
      → s.phase ≡ idle
      → (get_meta id s.manager ≡ latest (log_of r) id)
        × (get_keyset cached id s.manager ≡ keyset_for cached (latest (log_of r) id))
  Reach-get_meta s r id e =
      let (at, paired) = whole-get_meta (log_of r) s.manager id (rw e at (Reach-Consistent s r)) in
      (at, keyset_for_paired s.manager id paired ∙ ap (keyset_for cached) at)

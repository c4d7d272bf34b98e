-- ===== src/Metadata/Lock.antt =====
-- Update and its goroutine as steps. Update takes the mutex and returns; the goroutine fills the
-- maps while it holds the mutex, and lets it go or ends the process. GetMeta and GetKeyset wait for
-- the mutex, so they run in the phase `idle` only.
use obligator.Base.{◌≡◌, String, List, [], ◌∷◌}
use obligator.Types.{OAuth2Provider}
use obligator.Metadata.{
  done, failed, OAuth2MetadataManager, Network, new_oauth2_metadata_manager, add_provider,
}

-- `starting`: the goroutine has yet to read the providers. `filling`: the providers to come.
pub data Phase : Type 0 where
  idle starting exited : Phase
  filling : Network → List OAuth2Provider → Phase

pub record System : Type 0 where
  pub manager : OAuth2MetadataManager
  pub phase : Phase

abbrev pub initial : System
initial = record { manager = new_oauth2_metadata_manager; phase = idle }

-- The database and the network answer as they like when an update begins. A call that hangs is
-- followed by no step: the goroutine holds the mutex from then on.
pub data Step (s t : System) : Type 0 where
  update : s.phase ≡ idle → t ≡ record s { phase = starting } → Step s t
  read :
      (net : Network) (providers : List OAuth2Provider)
      → s.phase ≡ starting
      → t ≡ record { manager = new_oauth2_metadata_manager; phase = filling net providers }
      → Step s t
  read_failed : s.phase ≡ starting → t ≡ record s { phase = exited } → Step s t
  add :
      (net : Network) (provider : OAuth2Provider) (rest : List OAuth2Provider)
      (m : OAuth2MetadataManager)
      → s.phase ≡ filling net (provider ∷ rest)
      → add_provider net provider s.manager ≡ done m
      → t ≡ record { manager = m; phase = filling net rest }
      → Step s t
  add_failed :
      (net : Network) (provider : OAuth2Provider) (rest : List OAuth2Provider) (e : String)
      → s.phase ≡ filling net (provider ∷ rest)
      → add_provider net provider s.manager ≡ failed e
      → t ≡ record s { phase = exited }
      → Step s t
  unlock : (net : Network) → s.phase ≡ filling net [] → t ≡ record s { phase = idle } → Step s t

pub data Reach (s : System) : System → Type 0 where
  here : Reach s s
  more : {t u : System} → Reach s t → Step t u → Reach s u

-- What the updates have read, the latest first.
abbrev pub Log : Type 0
Log = List (Network × List OAuth2Provider)

abbrev pub logged : {s t : System} → Step s t → Log → Log
logged (read net providers e q) log = (net, providers) ∷ log
logged (update e q) log = log
logged (read_failed e q) log = log
logged (add net provider rest m e added q) log = log
logged (add_failed net provider rest m e refused q) log = log
logged (unlock net e q) log = log

abbrev pub log_of : {s t : System} → Reach s t → Log
log_of here = []
log_of (more r st) = logged st (log_of r)

-- ===== src/Metadata/Progress.antt =====
-- How an update that holds the mutex goes on: it comes to its end, or hangs in a call.
use obligator.Base.{◌≡◌, ◌⊎◌, List, ◌∷◌}
use obligator.Types.{OAuth2Provider}
use obligator.Metadata.{hangs, Network, add_provider}
use obligator.Metadata.Lock.{System, Phase, idle, filling, exited, Step}

-- The mutex is free, or the process has ended.
abbrev pub IsOver : Phase → Type 0
IsOver ph = (ph ≡ idle) ⊎ (ph ≡ exited)

-- The goroutine is in a call for a provider that never comes back, and holds the mutex.
abbrev pub IsHung : System → Type 0
IsHung s =
    (net : Network) × (provider : OAuth2Provider) × (rest : List OAuth2Provider) × (s.phase
      ≡ filling net (provider ∷ rest))
    × (add_provider net provider s.manager ≡ hangs)

-- Every run from the state comes to such a phase or to such a call: unless it is there already,
-- there is a next step, and it leads there whichever step it is.
pub data Ends : System → Type 0 where
  over : (s : System) → IsOver s.phase → Ends s
  hung : (s : System) → IsHung s → Ends s
  later : (s t : System) → Step s t → ((u : System) → Step s u → Ends u) → Ends s

-- ===== src/Cluster/Forward.antt =====
-- What forwarding to the primary leaves as it was.
use obligator.Base.{Bool, true, false, String, ◌≡◌, refl, Bool-cases, Result-cases, inl, inr}
use obligator.Platform.{Platform}
use obligator.Handler.After.{After}
use obligator.Http.{World, Response}
use obligator.Cluster.{Cluster, forward_if, forward_to_primary, redirect_or_forward, primary_host}

module _ (p : Platform) (cluster : Cluster) where
  -- It goes on with the same state, or stops with another response.
  pub forward_to_primary-After :
      (s : World p) (P : World p → Type 0)
      → P s
      → ((w : Response) → P (record s { w = w }))
      → After P (λ a t. s ≡ t) (forward_to_primary p cluster s)
  unfolding forward_to_primary redirect_or_forward
  forward_to_primary-After s P same more = elim (Result-cases (primary_host p)) [
    | inr (m, e) ↦ rw (e, forward_to_primary) refl
    | inl (host, e) ↦ elim (Bool-cases cluster.on_fly) [
      | inl b ↦ rw (e, forward_to_primary, redirect_or_forward, b) (more _)
      | inr b ↦ rw (e, forward_to_primary, redirect_or_forward, b) refl
    ]
  ]

  -- The same for forwarding to another instance.
  pub forward_if-After :
      (away : Bool) (host : String) (s : World p) (P : World p → Type 0)
      → ((w : Response) → P (record s { w = w }))
      → After P (λ a t. s ≡ t) (forward_if p away cluster host s)
  unfolding redirect_or_forward
  forward_if-After false host s P more = refl
  forward_if-After true host s P more = elim (Bool-cases cluster.on_fly) [
    | inl b ↦ rw (redirect_or_forward, b) (more _)
    | inr b ↦ rw (redirect_or_forward, b) refl
  ]

-- ===== src/Cluster.antt =====
-- cluster.go: several instances of the server, of which one is the primary and may write.
pub mod Forward
use obligator.Base.{
  String, ◌⧺◌, Bool, true, false, not, Result, ok, err, is_ok, ◌==◌, if◌then◌else◌,
}
use obligator.Platform.{Platform}
use obligator.Handler.{◌>>=◌, ◌>>◌}
use obligator.Http.{Action, set_header, pure, halt}
use obligator.Utils.Random.{gen_random_key}

pub record Cluster : Type 0 where
  pub on_fly : Bool
  pub local_id : String

abbrev fly : String → Cluster
fly id = record { on_fly = true; local_id = id }

abbrev alone : String → Cluster
alone id = record { on_fly = false; local_id = id }

module _ (p : Platform) where
  open p use {Source, primary_file}

  -- A drawn id, or "" where the draw failed; the error is logged.
  abbrev pub drawn_id : Source → Result (String × Source) → Cluster × Source
  drawn_id src (ok (id, rest)) = (alone id, rest)
  drawn_id src (err m) = (alone "", src)

  -- The argument is the environment's FLY_ALLOC_ID.
  unfoldable pub new_cluster : String → Source → Cluster × Source
  new_cluster fly_io_id src =
      if fly_io_id == "" then drawn_id src (gen_random_key p src) else (fly fly_io_id, src)

  unfoldable pub primary_host : Result String
  primary_host = primary_file

  unfoldable pub i_am_the_primary : Bool
  i_am_the_primary = not (is_ok primary_host)

  -- Whether the handler is done.
  unfoldable pub redirect_or_forward : Cluster → String → Action p Bool
  redirect_or_forward c host =
      if c.on_fly then set_header "fly-replay" ("instance=" ⧺ host) >> pure true else pure false

  abbrev pub stop_if : Bool → Action p (Unit {0})
  stop_if true = halt
  stop_if false = pure tt

  -- if the instance is another one { done := RedirectOrForward; if done { return } }
  abbrev pub forward_if : Bool → Cluster → String → Action p (Unit {0})
  forward_if away c host = if away then redirect_or_forward c host >>= stop_if else pure tt

  -- if there is a primary { done := RedirectOrForward; if done { return } }
  unfoldable pub forward_to_primary : Cluster → Action p (Unit {0})
  forward_to_primary c = elim primary_host [
    | err m ↦ pure tt
    | ok host ↦ redirect_or_forward c host >>= stop_if
  ]

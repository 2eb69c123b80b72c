-- ===== src/Init/Supervisor/Events.antt =====
-- The operations that init.go performs on its services, in any order.
use mkgo.Common.{ℕ, Bool, List, [], ◌∷◌, Option, none, some}
use mkgo.Kern.Client.{Kernel}
use mkgo.Kern.Registry.Calls.{RegistryClient}
use mkgo.Init.Supervisor.{Service, SvcState, restart, sweep}
use mkgo.Init.Supervisor.Reload.{with_name, reload}

-- What happens to the services of a running supervisor: a sweep, and the operations of the control
-- protocol on a service name or on a new configuration.
pub data Event : Type 0 where
  sweep_event : Event
  restart_event : List ℕ → Event
  policy_event : List ℕ → Bool → Event
  reload_event : List Service → Event

-- Subop 4 of `handleInitctl`.
abbrev pub set_policy : Bool → SvcState → SvcState
set_policy yes_ st = record st { svc = record st.svc { respawn = yes_ } }

module _ (k : Kernel) where
  open k use {World}

  abbrev pub or_same :
      Option (RegistryClient × World × List SvcState)
      → List SvcState
      → RegistryClient
      → World
      → RegistryClient × World × List SvcState
  or_same (some out) states r w = out
  or_same none states r w = (r, w, states)

  unfoldable pub on_event :
      Event → List SvcState → RegistryClient → World → RegistryClient × World × List SvcState
  on_event sweep_event states r w = sweep k states r w
  on_event (restart_event name) states r w =
      or_same (with_name k name (restart k) states r w) states r w
  on_event (policy_event name yes_) states r w =
      or_same (with_name k name (λ st r' w'. (r', w', set_policy yes_ st)) states r w) states r w
  on_event (reload_event services) states r w = reload k services states r w

  unfoldable pub supervise :
      List Event → List SvcState → RegistryClient → World → RegistryClient × World × List SvcState
  supervise [] states r w = (r, w, states)
  supervise (e ∷ events) states r w =
      let (r', w', states') = on_event e states r w in supervise events states' r' w'

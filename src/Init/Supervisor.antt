-- ===== src/Init/Supervisor.antt =====
-- `supervisor` of services/init/init.go: booting, respawning and restarting the services. The
-- kernel is the parameter of `Kern.Client`; log lines are not kept.
pub mod Reload
pub mod Events
pub mod Laws
pub mod Runs
use mkgo.Common.{
  ℕ, zero, suc, ◌+◌, ◌%◌, Bool, true, false, not, ◌&&◌, ◌||◌, List, [], ◌∷◌, ◌++◌, length, leb,
  ◌==◌, if◌then◌else◌, Option, none, some, map,
}
use mkgo.Kern.Client.{Kernel, Reply, reply, fail}
use mkgo.Kern.Client.Book.{name_eq}
use mkgo.Kern.Registry.Replies.{SessionInfo}
use mkgo.Kern.Registry.Calls.{RegistryClient, list, kill, spawn}

abbrev pub max_spawn_fails : ℕ
max_spawn_fails = 5

abbrev pub list_saturation_cap : ℕ
list_saturation_cap = 12

-- `Service`, one line of init.conf.
pub record Service : Type 0 where
  pub name : List ℕ
  pub path : List ℕ
  pub capmask : ℕ
  pub respawn : Bool

pub record SvcState : Type 0 where
  pub svc : Service
  pub sid : ℕ
  pub fails : ℕ
  pub spawned : Bool

-- The new state of a configured service.
abbrev pub fresh : Service → SvcState
fresh svc = record { svc = svc; sid = 0; fails = 0; spawned = false }

-- `Alive`: neither `StateFree` nor `StateZombie`.
abbrev pub is_running : ℕ → Bool
is_running state = not (state == 0) && not (state == 3)

-- `alive[sid]` after the loop over the list, `false` for an unknown session: the last record of a
-- session counts.
unfoldable pub alive_in : ℕ → Bool → List SessionInfo → Bool
alive_in sid known [] = known
alive_in sid known (si ∷ l) = alive_in sid (if si.sid == sid then is_running si.state else known) l

module _ (k : Kernel) where
  open k use {World}

  -- What the supervisor's calls change: the registry client, the kernel and the service.
  abbrev pub Turn : Type 0
  Turn = RegistryClient × World × SvcState

  abbrev pub spawned_as : SvcState → Reply ℕ → SvcState
  spawned_as st (reply sid) = record st { sid = sid; spawned = true; fails = 0 }
  spawned_as st (fail e) = record st { fails = st.fails + 1 }

  -- `spawn`; no arguments are passed on.
  unfoldable pub spawn_service : SvcState → RegistryClient → World → Turn
  spawn_service st r w =
      if leb max_spawn_fails st.fails
      then (r, w, st)
      else let (r', w', o) = spawn k st.svc.name st.svc.path st.svc.capmask [] r w in
        (r', w', spawned_as st o)

  -- The body of the loop of `sweep`.
  unfoldable pub sweep_one : List SessionInfo → SvcState → RegistryClient → World → Turn
  sweep_one l st r w =
      if not st.svc.respawn
      then (r, w, st)
      else if st.spawned
      then if alive_in st.sid false l
        then (r, w, st)
        else spawn_service (record st { spawned = false }) r w
      else if st.fails == 0
      then (r, w, st)
      else spawn_service st r w

  -- A loop over all services, in the order of the configuration.
  unfoldable pub each :
      (SvcState → RegistryClient → World → Turn)
      → List SvcState
      → RegistryClient
      → World
      → RegistryClient × World × List SvcState
  each f [] r w = (r, w, [])
  each f (st ∷ states) r w =
      let (r', w', st') = f st r w in
      let (r'', w'', states') = each f states r' w' in (r'', w'', st' ∷ states')

  abbrev pub swept :
      Reply (List SessionInfo)
      → List SvcState
      → RegistryClient
      → World
      → RegistryClient × World × List SvcState
  swept (fail e) states r w = (r, w, states)
  swept (reply l) states r w =
      if leb list_saturation_cap (length l) then (r, w, states) else each (sweep_one l) states r w

  -- `sweep`.
  unfoldable pub sweep :
      List SvcState → RegistryClient → World → RegistryClient × World × List SvcState
  sweep states r w = let (r', w', o) = list k r w in swept o states r' w'

  -- The boot loop of `Run`.
  unfoldable pub boot :
      List Service → RegistryClient → World → RegistryClient × World × List SvcState
  boot services r w = each spawn_service (map fresh services) r w

  -- `restart`: the result of `Kill` is only logged.
  unfoldable pub restart : SvcState → RegistryClient → World → Turn
  restart st r w =
      if st.spawned
      then (let (r', w', o) = kill k st.sid r w in
          spawn_service (record st { spawned = false; fails = 0 }) r' w')
      else spawn_service (record st { fails = 0 }) r w

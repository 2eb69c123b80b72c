-- ===== src/Init/Supervisor/Reload.antt =====
-- `byName` and `reloadInitconf` of services/init/init.go.
use mkgo.Common.{
  Bool, false, not, ◌||◌, List, [], ◌∷◌, ◌++◌, if◌then◌else◌, Option, none, some, map,
}
use mkgo.Kern.Client.{Kernel, Reply, reply, fail}
use mkgo.Kern.Client.Book.{name_eq}
use mkgo.Kern.Registry.Replies.{SessionInfo}
use mkgo.Kern.Registry.Calls.{RegistryClient, list}
use mkgo.Common.{ℕ}
use mkgo.Init.Supervisor.{Service, SvcState, Turn, fresh, alive_in, spawn_service, each}

-- What a known service takes over from a new configuration.
abbrev pub configured : Service → SvcState → SvcState
configured svc st = record st {
  svc = record st.svc { path = svc.path; capmask = svc.capmask; respawn = svc.respawn };
}

-- `keep`, and what becomes of a service whose name is gone.
unfoldable pub is_kept : List ℕ → List Service → Bool
is_kept name [] = false
is_kept name (svc ∷ services) = name_eq svc.name name || is_kept name services

unfoldable pub drop_removed : List Service → SvcState → SvcState
drop_removed services st =
    if is_kept st.svc.name services
    then st
    else record st { svc = record st.svc { respawn = false } }

module _ (k : Kernel) where
  open k use {World}

  abbrev pub behind :
      SvcState
      → Option (RegistryClient × World × List SvcState)
      → Option (RegistryClient × World × List SvcState)
  behind s none = none
  behind s (some (r, w, rest)) = some (r, w, s ∷ rest)

  -- The first service of that name, `byName`, after a call of `f` on it; `none` when there is no
  -- such service.
  unfoldable pub with_name :
      List ℕ
      → (SvcState → RegistryClient → World → Turn k)
      → List SvcState
      → RegistryClient
      → World
      → Option (RegistryClient × World × List SvcState)
  with_name name f [] r w = none
  with_name name f (st ∷ states) r w =
      if name_eq st.svc.name name
      then (let (r', w', st') = f st r w in some (r', w', st' ∷ states))
      else behind st (with_name name f states r w)

  -- What `reloadInitconf` does for a name that is new: the service is appended and spawned.
  abbrev pub or_new :
      Option (RegistryClient × World × List SvcState)
      → Service
      → List SvcState
      → RegistryClient
      → World
      → RegistryClient × World × List SvcState
  or_new (some out) svc states r w = out
  or_new none svc states r w =
      let (r', w', st) = spawn_service k (fresh svc) r w in (r', w', states ++ st ∷ [])

  unfoldable pub adopt_one :
      Service → List SvcState → RegistryClient → World → RegistryClient × World × List SvcState
  adopt_one svc states r w =
      or_new (with_name svc.name (λ st r' w'. (r', w', configured svc st)) states r w) svc states r
        w

  -- The loop of `reloadInitconf` over the new configuration.
  unfoldable pub adopt :
      List Service → List SvcState → RegistryClient → World → RegistryClient × World × List SvcState
  adopt [] states r w = (r, w, states)
  adopt (svc ∷ services) states r w =
      let (r', w', states') = adopt_one svc states r w in adopt services states' r' w'

  -- The last loop of `reloadInitconf`, which does not count the failures before the reload.
  unfoldable pub revive_one : List SessionInfo → SvcState → RegistryClient → World → Turn k
  revive_one l st r w =
      if not st.svc.respawn || not st.spawned
      then (r, w, st)
      else if alive_in st.sid false l
      then (r, w, st)
      else spawn_service k (record st { spawned = false; fails = 0 }) r w

  abbrev pub revived :
      Reply (List SessionInfo)
      → List SvcState
      → RegistryClient
      → World
      → RegistryClient × World × List SvcState
  revived (fail e) states r w = (r, w, states)
  revived (reply l) states r w = each k (revive_one l) states r w

  -- `reloadInitconf` behind `ParseConf`.
  unfoldable pub reload :
      List Service → List SvcState → RegistryClient → World → RegistryClient × World × List SvcState
  reload services states r w =
      let (r', w', states') = adopt services states r w in
      let kept = map (drop_removed services) states' in
      let (r'', w'', o) = list k r' w' in revived o kept r'' w''

-- ===== src/Init/Supervisor/Runs.antt =====
-- Whole runs of the supervisor, the sweep that has nothing to do, and the manual restart.
use mkgo.Common.{
  ℕ, ◌≤◌, ◌≡◌, refl, arith, true, false, not, List, [], ◌∷◌, length, leb, ◌==◌, Option, none, some,
  ◌⊎◌, inl, inr, Bool-cases, All,
}
use mkgo.Kern.Client.{Kernel, Reply, reply, fail}
use mkgo.Kern.Registry.Replies.{SessionInfo}
use mkgo.Kern.Registry.Calls.{RegistryClient, list}
use mkgo.Init.Supervisor.{
  Service, SvcState, alive_in, spawned_as, spawn_service, sweep_one, each, sweep, boot, restart,
}
use mkgo.Init.Supervisor.Events.{
  Event, sweep_event, restart_event, policy_event, reload_event, set_policy, or_same, on_event,
  supervise,
}
use mkgo.Init.Supervisor.Laws.{
  IsSane, Found, restart-IsSane, reload-IsSane, swept-IsSane, boot-IsSane, with_name-Found,
}

-- A service that a sweep with the sessions `l` leaves alone: its respawn is off, its session is
-- alive, it was never tried, or it was given up after five failures.
pub data IsSettled (l : List SessionInfo) (st : SvcState) : Type 0 where
  by_policy : st.svc.respawn ≡ false → IsSettled l st
  by_session : st.spawned ≡ true → alive_in st.sid false l ≡ true → IsSettled l st
  untried : st.spawned ≡ false → st.fails ≡ 0 → IsSettled l st
  given_up : st.spawned ≡ false → 5 ≤ st.fails → IsSettled l st

module _ (k : Kernel) where
  open k use {World}

  or_same-IsSane :
      (o : Option (RegistryClient × World × List SvcState)) (states : List SvcState)
      (r : RegistryClient) (w : World)
      → Found k (IsSane k) o
      → All (IsSane k) states
      → All (IsSane k) (or_same k o states r w).2
  or_same-IsSane (some (r', w', states')) states r w found h = found
  or_same-IsSane none states r w found h = h

  on_event-IsSane :
      (e : Event) (states : List SvcState) (r : RegistryClient) (w : World)
      → All (IsSane k) states
      → All (IsSane k) (on_event k e states r w).2
  unfolding on_event sweep
  on_event-IsSane sweep_event states r w h =
      let (r', w', o) = list k r w in swept-IsSane k o states r' w' h
  on_event-IsSane (restart_event name) states r w h =
      or_same-IsSane _ states r w
        (with_name-Found k (IsSane k) name (restart k) (restart-IsSane k) states r w h) h
  on_event-IsSane (policy_event name yes_) states r w h =
      or_same-IsSane _ states r w
        (with_name-Found k (IsSane k) name (λ st r' w'. (r', w', set_policy yes_ st))
          (λ st r' w' hs. hs) states r w h)
        h
  on_event-IsSane (reload_event services) states r w h = reload-IsSane k services states r w h

  supervise-IsSane :
      (events : List Event) (states : List SvcState) (r : RegistryClient) (w : World)
      → All (IsSane k) states
      → All (IsSane k) (supervise k events states r w).2
  unfolding supervise
  supervise-IsSane [] states r w h = h
  supervise-IsSane (e ∷ events) states r w h =
      let (r', w', states') = on_event k e states r w in
      supervise-IsSane events states' r' w' (on_event-IsSane e states r w h)

  -- From boot on, through any sweeps, restarts, policy changes and reloads and whatever the kernel
  -- answers, every service is in one of two states. It is marked as spawned with no failure counted,
  -- and its session is one with which the kernel has answered a spawn of a service of that name. Or
  -- it is down, and its count of failed spawns, which a success, a restart and a reload that revives
  -- it set back to zero, is at least one and at most five.
  pub supervise-boot :
      (events : List Event) (services : List Service) (r : RegistryClient) (w : World)
      → let (r', w', states) = boot k services r w in
        All (IsSane k) (supervise k events states r' w').2
  supervise-boot events services r w =
      let (r', w', states) = boot k services r w in
      supervise-IsSane events states r' w' (boot-IsSane k services r w)

  sweep_one-settled :
      (l : List SessionInfo) (st : SvcState) (r : RegistryClient) (w : World)
      → IsSettled l st
      → sweep_one k l st r w ≡ (r, w, st)
  unfolding sweep_one spawn_service
  sweep_one-settled l st r w (by_policy e) = rw e refl
  sweep_one-settled l st r w (by_session e a) = ground (arith, e, a)
  sweep_one-settled l st r w (untried e f) = ground (arith, e, f)
  sweep_one-settled l st r w (given_up e f) =
      let spent : leb 5 st.fails ≡ true = ground arith in
      let tried : (st.fails == 0) ≡ false = ground arith in
      elim (Bool-cases (not st.svc.respawn)) [
        | inl off ↦ rw off refl
        | inr on ↦ rw on (rw e (rw (tried, spent) refl))
      ]

  each-settled :
      (l : List SessionInfo) (states : List SvcState) (r : RegistryClient) (w : World)
      → All (IsSettled l) states
      → each k (sweep_one k l) states r w ≡ (r, w, states)
  unfolding each
  each-settled l [] r w h = refl
  each-settled l (st ∷ states) r w (hst, h) =
      rw (sweep_one-settled l st r w hst) (rw (each-settled l states r w h) refl)

  -- A sweep asks the kernel for nothing but the list, and changes no service, when every service
  -- has its respawn off, has a session that the list shows alive, was never tried or was given up
  -- after five failures; nor when the list is full, with twelve records or more.
  pub sweep_quiet :
      (l : List SessionInfo) (states : List SvcState) (r r' : RegistryClient) (w w' : World)
      → list k r w ≡ (r', w', reply l)
      → (12 ≤ length l) ⊎ All (IsSettled l) states
      → sweep k states r w ≡ (r', w', states)
  unfolding sweep
  sweep_quiet l states r r' w w' e (inl full) =
      let h : leb 12 (length l) ≡ true = ground arith in rw e (rw h refl)
  sweep_quiet l states r r' w w' e (inr h) = elim (Bool-cases (leb 12 (length l))) [
    | inl full ↦ rw e (rw full refl)
    | inr small ↦ rw e (rw small (each-settled l states r' w' h))
  ]

  spawned_as-first :
      (st : SvcState) (o : Reply ℕ)
      → st.spawned ≡ false
      → st.fails ≡ 0
      → let st' = spawned_as k st o in
        (st'.svc ≡ st.svc)
        × (((st'.spawned ≡ true) × (st'.fails ≡ 0)) ⊎ ((st'.spawned ≡ false) × (st'.fails ≡ 1)))
  spawned_as-first st (reply sid) e z = (refl, inl (refl, refl))
  spawned_as-first st (fail x) e z = (refl, inr (e, omega arith))

  -- A manual restart tries a spawn whatever failures were counted before, even for a service that
  -- was given up: afterwards the service runs with no failure counted, or one spawn has failed.
  -- The configuration of the service is kept.
  pub restart_resets :
      (st : SvcState) (r : RegistryClient) (w : World)
      → let st' = (restart k st r w).2 in
        (st'.svc ≡ st.svc)
        × (((st'.spawned ≡ true) × (st'.fails ≡ 0)) ⊎ ((st'.spawned ≡ false) × (st'.fails ≡ 1)))
  unfolding restart spawn_service
  restart_resets st r w = elim (Bool-cases st.spawned) [
    | inl up ↦ rw up (spawned_as-first (record st { spawned = false; fails = 0 }) _ refl refl)
    | inr off ↦ rw off (spawned_as-first (record st { spawned = false; fails = 0 }) _ refl refl)
  ]

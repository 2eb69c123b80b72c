-- ===== src/Init/Supervisor/Laws.antt =====
-- The state that every operation of the supervisor leaves each service in.
use mkgo.Common.{
  ℕ, ◌≤◌, ◌≡◌, refl, arith, true, false, List, [], ◌∷◌, ◌++◌, length, leb, Option, none, some, ◌⊎◌,
  inl, inr, Bool-cases, All, map,
}
use mkgo.Kern.Client.{Kernel, Reply, reply, fail}
use mkgo.Kern.Client.Book.{name_eq}
use mkgo.Kern.Registry.Replies.{SessionInfo}
use mkgo.Kern.Registry.Calls.{RegistryClient, list, spawn}
use mkgo.Init.Supervisor.{
  Service, SvcState, fresh, spawned_as, spawn_service, sweep_one, each, swept, boot, restart,
}
use mkgo.Init.Supervisor.Reload.{
  behind, or_new, with_name, configured, adopt_one, adopt, drop_removed, revive_one, revived,
  reload,
}

-- The kernel has answered a spawn of a service of that name with the session.
pub record IsGiven (k : Kernel) (name : List ℕ) (sid : ℕ) : Type 0 where
  pub path : List ℕ
  pub capmask : ℕ
  pub client : RegistryClient
  pub world : k.World
  pub answered : (spawn k name path capmask [] client world).2 ≡ reply sid

-- A service runs under a session that the kernel gave to it, with no failure counted, or its last
-- spawn failed and its count of failures is one to five.
abbrev pub IsSane : Kernel → SvcState → Type 0
IsSane k st =
    ((st.spawned ≡ true) × (st.fails ≡ 0) × IsGiven k st.svc.name st.sid)
    ⊎ ((st.spawned ≡ false) × (1 ≤ st.fails) × (st.fails ≤ 5))

-- A service whose next spawn may be tried.
abbrev IsDown : SvcState → Type 0
IsDown st = (st.spawned ≡ false) × (st.fails ≤ 5)

down : (k : Kernel) (st : SvcState) → IsSane k st → IsDown (record st { spawned = false })
down k st (inl (e, z, g)) = (refl, omega arith)
down k st (inr (e, lo, hi)) = (refl, hi)

All-append_one :
    {A : Type 0} (P : A → Type 0) (l : List A) (a : A) → All P l → P a → All P (l ++ a ∷ [])
All-append_one P [] a h p = (p, tt)
All-append_one P (x ∷ l) a (hx, hl) p = (hx, All-append_one P l a hl p)

All-map :
    {A : Type 0} (P : A → Type 0) (f : A → A) (l : List A)
    → ((a : A) → P a → P (f a))
    → All P l
    → All P (map f l)
All-map P f [] keep h = tt
All-map P f (x ∷ l) keep (hx, hl) = (keep x hx, All-map P f l keep hl)

drop_removed-IsSane :
    (k : Kernel) (services : List Service) (st : SvcState)
    → IsSane k st
    → IsSane k (drop_removed services st)
unfolding drop_removed
drop_removed-IsSane k services st h = ground (arith, h)

module _ (k : Kernel) where
  open k use {World}

  spawned_as-IsSane :
      (st : SvcState) (r : RegistryClient) (w : World) (o : Reply ℕ)
      → (spawn k st.svc.name st.svc.path st.svc.capmask [] r w).2 ≡ o
      → st.spawned ≡ false
      → st.fails ≤ 4
      → IsSane k (spawned_as k st o)
  spawned_as-IsSane st r w (reply sid) given e h = inl (
    refl,
    refl,
    record {
      path = st.svc.path;
      capmask = st.svc.capmask;
      client = r;
      world = w;
      answered = given;
    },
  )
  spawned_as-IsSane st r w (fail x) given e h = inr (e, omega arith, omega arith)

  pub spawn_service-IsSane :
      (st : SvcState) (r : RegistryClient) (w : World)
      → IsDown st
      → IsSane k (spawn_service k st r w).2
  unfolding spawn_service
  spawn_service-IsSane st r w (e, h) = elim (Bool-cases (leb 5 st.fails)) [
    | inl spent ↦ rw spent (inr (e, ground arith, h))
    | inr left ↦ rw left (spawned_as-IsSane st r w _ refl e (ground arith))
  ]

  sweep_one-IsSane :
      (l : List SessionInfo) (st : SvcState) (r : RegistryClient) (w : World)
      → IsSane k st
      → IsSane k (sweep_one k l st r w).2
  unfolding sweep_one
  sweep_one-IsSane l st r w h =
      let revived_ = spawn_service-IsSane (record st { spawned = false }) r w (down k st h) in
      let retried : st.spawned ≡ false → IsSane k (spawn_service k st r w).2 =
        λ e. spawn_service-IsSane st r w (e, (down k st h).1) in
      ground (arith, h, revived_, retried)

  revive_one-IsSane :
      (l : List SessionInfo) (st : SvcState) (r : RegistryClient) (w : World)
      → IsSane k st
      → IsSane k (revive_one k l st r w).2
  unfolding revive_one
  revive_one-IsSane l st r w h =
      let fresh_ =
        spawn_service-IsSane (record st { spawned = false; fails = 0 }) r w (refl, omega arith) in
      ground (arith, h, fresh_)

  pub restart-IsSane :
      (st : SvcState) (r : RegistryClient) (w : World) → IsSane k st → IsSane k (restart k st r w).2
  unfolding restart
  restart-IsSane st r w h = elim (Bool-cases st.spawned) [
    | inl up ↦
        rw up
          (spawn_service-IsSane (record st { spawned = false; fails = 0 }) _ _ (refl, omega arith))
    | inr off ↦
        rw off
          (spawn_service-IsSane (record st { spawned = false; fails = 0 }) r w (refl, omega arith))
  ]

  each-All :
      (P Q : SvcState → Type 0)
      (f : SvcState → RegistryClient → World → RegistryClient × World × SvcState)
      → ((st : SvcState) (r : RegistryClient) (w : World) → P st → Q (f st r w).2)
      → (states : List SvcState) (r : RegistryClient) (w : World) → All P states
      → All Q (each k f states r w).2
  unfolding each
  each-All P Q f keep [] r w h = tt
  each-All P Q f keep (st ∷ states) r w (hst, h) =
      let (r', w', st') = f st r w in (keep st r w hst, each-All P Q f keep states r' w' h)

  -- All services of a result, if there is one.
  abbrev pub Found : (SvcState → Type 0) → Option (RegistryClient × World × List SvcState) → Type 0
  Found P none = Unit
  Found P (some (r, w, states)) = All P states

  behind-Found :
      (P : SvcState → Type 0) (st : SvcState) (o : Option (RegistryClient × World × List SvcState))
      → P st
      → Found P o
      → Found P (behind k st o)
  behind-Found P st none hst h = tt
  behind-Found P st (some (r, w, rest)) hst h = (hst, h)

  pub with_name-Found :
      (P : SvcState → Type 0) (name : List ℕ)
      (f : SvcState → RegistryClient → World → RegistryClient × World × SvcState)
      → ((st : SvcState) (r : RegistryClient) (w : World) → P st → P (f st r w).2)
      → (states : List SvcState) (r : RegistryClient) (w : World) → All P states
      → Found P (with_name k name f states r w)
  unfolding with_name
  with_name-Found P name f keep [] r w h = tt
  with_name-Found P name f keep (st ∷ states) r w (hst, h) =
      elim (Bool-cases (name_eq st.svc.name name)) [
        | inl here ↦ rw here (keep st r w hst, h)
        | inr on ↦ rw on (behind-Found P st _ hst (with_name-Found P name f keep states r w h))
      ]

  or_new-IsSane :
      (o : Option (RegistryClient × World × List SvcState)) (svc : Service) (states : List SvcState)
      (r : RegistryClient) (w : World)
      → Found (IsSane k) o
      → All (IsSane k) states
      → All (IsSane k) (or_new k o svc states r w).2
  or_new-IsSane (some (r', w', states')) svc states r w found h = found
  or_new-IsSane none svc states r w found h =
      All-append_one (IsSane k) states _ h
        (spawn_service-IsSane (fresh svc) r w (refl, omega arith))

  adopt-IsSane :
      (services : List Service) (states : List SvcState) (r : RegistryClient) (w : World)
      → All (IsSane k) states
      → All (IsSane k) (adopt k services states r w).2
  unfolding adopt adopt_one
  adopt-IsSane [] states r w h = h
  adopt-IsSane (svc ∷ services) states r w h =
      let found =
        with_name-Found (IsSane k) svc.name (λ st r' w'. (r', w', configured svc st))
          (λ st r' w' hs. hs) states r w h in
      let (r', w', states') = adopt_one k svc states r w in
      adopt-IsSane services states' r' w' (or_new-IsSane _ svc states r w found h)

  revived-IsSane :
      (o : Reply (List SessionInfo)) (states : List SvcState) (r : RegistryClient) (w : World)
      → All (IsSane k) states
      → All (IsSane k) (revived k o states r w).2
  revived-IsSane (fail e) states r w h = h
  revived-IsSane (reply l) states r w h =
      each-All (IsSane k) (IsSane k) (revive_one k l) (revive_one-IsSane l) states r w h

  pub reload-IsSane :
      (services : List Service) (states : List SvcState) (r : RegistryClient) (w : World)
      → All (IsSane k) states
      → All (IsSane k) (reload k services states r w).2
  unfolding reload
  reload-IsSane services states r w h =
      let (r', w', states') = adopt k services states r w in
      let kept = map (drop_removed services) states' in
      let sane =
        All-map (IsSane k) (drop_removed services) states' (drop_removed-IsSane k services)
          (adopt-IsSane services states r w h) in
      let (r'', w'', o) = list k r' w' in revived-IsSane o kept r'' w'' sane

  pub swept-IsSane :
      (o : Reply (List SessionInfo)) (states : List SvcState) (r : RegistryClient) (w : World)
      → All (IsSane k) states
      → All (IsSane k) (swept k o states r w).2
  swept-IsSane (fail e) states r w h = h
  swept-IsSane (reply l) states r w h = elim (Bool-cases (leb 12 (length l))) [
    | inl full ↦ rw full h
    | inr short ↦
        rw short (each-All (IsSane k) (IsSane k) (sweep_one k l) (sweep_one-IsSane l) states r w h)
  ]

  All-fresh : (services : List Service) → All IsDown (map fresh services)
  All-fresh [] = tt
  All-fresh (svc ∷ services) = ((refl, omega arith), All-fresh services)

  pub boot-IsSane :
      (services : List Service) (r : RegistryClient) (w : World)
      → All (IsSane k) (boot k services r w).2
  unfolding boot
  boot-IsSane services r w =
      each-All IsDown (IsSane k) (spawn_service k) spawn_service-IsSane (map fresh services) r w
        (All-fresh services)

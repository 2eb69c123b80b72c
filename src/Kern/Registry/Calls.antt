-- ===== src/Kern/Registry/Calls.antt =====
-- `RegistryClient` and `DevmanClient` of guests/lib/registry.go: a request and its decoded reply.
use mkgo.Common.{ℕ, List, [], ◌∷◌}
use mkgo.Kern.Frame.{le32, le64}
use mkgo.Kern.Client.{Kernel, Client, Reply, reply, fail, request}
use mkgo.Kern.Registry.Replies.{
  SessionInfo, CapEntry, DeviceRec, KnobInfo, SysStat, LogChunk, decode_list, decode_caps,
  decode_enum, decode_status, decode_done, decode_spawn, decode_knob, decode_sysstat, decode_log,
}
use mkgo.Kern.Registry.Payloads.{
  login_payload, setconf_payload, chcaps_payload, assign_pci_payload, knob_payload, spawn_payload,
}

abbrev pub op_registry_list : ℕ
op_registry_list = 1

abbrev pub op_registry_caps : ℕ
op_registry_caps = 2

abbrev pub op_registry_kill : ℕ
op_registry_kill = 3

abbrev pub op_registry_spawn : ℕ
op_registry_spawn = 4

abbrev pub op_registry_login : ℕ
op_registry_login = 5

abbrev pub op_registry_setconf : ℕ
op_registry_setconf = 6

abbrev pub op_registry_assign_pci : ℕ
op_registry_assign_pci = 7

abbrev pub op_registry_sysstat : ℕ
op_registry_sysstat = 8

abbrev pub op_registry_logdump : ℕ
op_registry_logdump = 9

abbrev pub op_registry_chcaps : ℕ
op_registry_chcaps = 10

abbrev pub op_registry_knobs_get : ℕ
op_registry_knobs_get = 11

abbrev pub op_registry_knobs_set : ℕ
op_registry_knobs_set = 12

abbrev pub op_devman_enum : ℕ
op_devman_enum = 1

-- The client with its bound handle.
pub record RegistryClient : Type 0 where
  pub client : Client
  pub rg : ℕ

abbrev pub decoded {ℓ} : {A : Type ℓ} → (List ℕ → Reply A) → Reply (List ℕ) → Reply A
decoded decode (reply b) = decode b
decoded decode (fail e) = fail e

module _ (k : Kernel) where
  open k use {World}

  -- One request and the decoding of its reply.
  unfoldable pub ask {ℓ} :
      {A : Type ℓ}
      → (List ℕ → Reply A)
      → RegistryClient
      → ℕ
      → List ℕ
      → World
      → RegistryClient × World × Reply A
  ask decode r op payload w =
      let (c, w', rep) = request k r.client r.rg op payload w in
      (record r { client = c }, w', decoded decode rep)

  unfoldable pub list : RegistryClient → World → RegistryClient × World × Reply (List SessionInfo)
  unfolding ask
  list r w = ask decode_list r op_registry_list [] w

  unfoldable pub caps : ℕ → RegistryClient → World → RegistryClient × World × Reply (List CapEntry)
  unfolding ask
  caps sid r w = ask decode_caps r op_registry_caps (le32 sid) w

  unfoldable pub kill : ℕ → RegistryClient → World → RegistryClient × World × Reply ℕ
  unfolding ask
  kill sid r w = ask decode_status r op_registry_kill (le32 sid) w

  unfoldable pub spawn :
      List ℕ
      → List ℕ
      → ℕ
      → List (List ℕ)
      → RegistryClient
      → World
      → RegistryClient × World × Reply ℕ
  unfolding ask
  spawn name path capmask args r w =
      ask decode_spawn r op_registry_spawn (spawn_payload name path capmask args) w

  unfoldable pub login :
      List ℕ → ℕ → ℕ → RegistryClient → World → RegistryClient × World × Reply (Unit {0})
  unfolding ask
  login name uid capmask r w =
      ask decode_done r op_registry_login (login_payload name uid capmask) w

  unfoldable pub set_conf :
      List ℕ → ℕ → RegistryClient → World → RegistryClient × World × Reply (Unit {0})
  unfolding ask
  set_conf key value r w = ask decode_done r op_registry_setconf (setconf_payload key value) w

  unfoldable pub log_dump : ℕ → RegistryClient → World → RegistryClient × World × Reply LogChunk
  unfolding ask
  log_dump off r w = ask decode_log r op_registry_logdump (le64 off) w

  unfoldable pub chcaps : ℕ → ℕ → ℕ → RegistryClient → World → RegistryClient × World × Reply ℕ
  unfolding ask
  chcaps sid clear set r w = ask decode_status r op_registry_chcaps (chcaps_payload sid clear set) w

  unfoldable pub knobs_get : ℕ → RegistryClient → World → RegistryClient × World × Reply KnobInfo
  unfolding ask
  knobs_get idx r w = ask decode_knob r op_registry_knobs_get (idx ∷ []) w

  unfoldable pub knobs_set :
      ℕ → ℕ → RegistryClient → World → RegistryClient × World × Reply (Unit {0})
  unfolding ask
  knobs_set idx value r w = ask decode_done r op_registry_knobs_set (knob_payload idx value) w

  unfoldable pub assign_pci :
      ℕ → ℕ → ℕ → ℕ → RegistryClient → World → RegistryClient × World × Reply (Unit {0})
  unfolding ask
  assign_pci sid bus dev fn r w =
      ask decode_done r op_registry_assign_pci (assign_pci_payload sid bus dev fn) w

  unfoldable pub sys_stat : RegistryClient → World → RegistryClient × World × Reply SysStat
  unfolding ask
  sys_stat r w = ask decode_sysstat r op_registry_sysstat [] w

  -- `DevmanClient.Enum`: the client of the endpoint "devman" has the same fields.
  unfoldable pub enum : RegistryClient → World → RegistryClient × World × Reply (List DeviceRec)
  unfolding ask
  enum d w = ask decode_enum d op_devman_enum [] w

-- ===== src/Kern/Registry/Replies.antt =====
-- The records and the replies of the kernel endpoints, as guests/lib/registry.go decodes them.
use mkgo.Common.{ℕ, zero, suc, List, [], ◌∷◌, length, ltb, ◌==◌, not, if◌then◌else◌, drop, Bool}
use mkgo.Common.Bytes.{byte_at, slice}
use mkgo.Kern.Frame.{get32, get64, cstr16}
use mkgo.Kern.Client.{Reply, reply, fail, short, rejected}

-- A `LIST` record.
pub record SessionInfo : Type 0 where
  pub sid : ℕ
  pub uid : ℕ
  pub state : ℕ
  pub name : List ℕ
  pub source : ℕ

-- A `CAPS` record.
pub record CapEntry : Type 0 where
  pub id : ℕ
  pub rights : ℕ

-- An `ENUM` record.
pub record DeviceRec : Type 0 where
  pub class : ℕ
  pub inst : ℕ
  pub win_off : ℕ

-- `for i := 0; i < n; i++ { if off+size > len(rep) { break }; …; off += size }`, on the bytes from
-- `off` on.
unfoldable pub records {ℓ} : {A : Type ℓ} → ℕ → (List ℕ → A) → ℕ → List ℕ → List A
records size read zero rest = []
records size read (suc n) rest =
    let more = records size read n (drop size rest) in
    if ltb (length rest) size then [] else read rest ∷ more

abbrev pub read_session : List ℕ → SessionInfo
read_session b = record {
  sid = get32 b 0;
  uid = get32 b 4;
  state = byte_at b 8;
  name = cstr16 (slice 9 25 b);
  source = byte_at b 25;
}

abbrev pub read_cap : List ℕ → CapEntry
read_cap b = record { id = get32 b 0; rights = get64 b 4 }

abbrev pub read_device : List ℕ → DeviceRec
read_device b = record { class = get32 b 0; inst = get32 b 4; win_off = get64 b 8 }

-- The body of `List` behind the request.
unfoldable pub decode_list : List ℕ → Reply (List SessionInfo)
unfolding records
decode_list rep =
    if ltb (length rep) 28
    then fail short
    else reply (records 26 read_session (get32 rep 24) (drop 28 rep))

unfoldable pub decode_caps : List ℕ → Reply (List CapEntry)
unfolding records
decode_caps rep =
    if ltb (length rep) 28
    then fail short
    else reply (records 12 read_cap (get32 rep 24) (drop 28 rep))

-- `Enum` refuses an absurd count.
unfoldable pub decode_enum : List ℕ → Reply (List DeviceRec)
unfolding records
decode_enum rep =
    if ltb (length rep) 28
    then fail short
    else if ltb 64 (get32 rep 24)
    then fail short
    else reply (records 16 read_device (get32 rep 24) (drop 28 rep))

-- The `int32` status of `Kill` and `Chcaps`, by its bit pattern.
unfoldable pub decode_status : List ℕ → Reply ℕ
decode_status rep = if ltb (length rep) 28 then fail short else reply (get32 rep 24)

-- The status of `Login`, `SetConf`, `KnobsSet` and `AssignPCI`, which must be 0.
unfoldable pub decode_done : List ℕ → Reply (Unit {0})
decode_done rep =
    if ltb (length rep) 28
    then fail short
    else if get32 rep 24 == 0
    then reply tt
    else fail rejected

abbrev pub no_sid : ℕ
no_sid = 0xffffffff

-- The reply of `Spawn`; a denial is `ErrSpawnDenied`, here `rejected`.
unfoldable pub decode_spawn : List ℕ → Reply ℕ
decode_spawn rep =
    if ltb (length rep) 28
    then fail short
    else if get32 rep 24 == no_sid
    then fail rejected
    else reply (get32 rep 24)

pub record KnobInfo : Type 0 where
  pub value : ℕ
  pub key : List ℕ

unfoldable pub decode_knob : List ℕ → Reply KnobInfo
decode_knob rep =
    if ltb (length rep) 52
    then fail short
    else if get32 rep 24 == 0
    then reply (record { value = get64 rep 28; key = cstr16 (drop 36 rep) })
    else fail rejected

pub record SysStat : Type 0 where
  pub mem_total : ℕ
  pub mem_used : ℕ
  pub quantum_us : ℕ
  pub preempt_on : Bool
  pub ncpus : ℕ

unfoldable pub decode_sysstat : List ℕ → Reply SysStat
decode_sysstat rep =
    if ltb (length rep) 53
    then fail short
    else if get32 rep 24 == 0
    then reply (record {
      mem_total = get64 rep 28;
      mem_used = get64 rep 36;
      quantum_us = get32 rep 44;
      preempt_on = not (byte_at rep 48 == 0);
      ncpus = get32 rep 49;
    })
    else fail rejected

pub record LogChunk : Type 0 where
  pub total : ℕ
  pub begin : ℕ
  pub bytes : List ℕ  -- `Data`

unfoldable pub decode_log : List ℕ → Reply LogChunk
decode_log rep =
    if ltb (length rep) 44
    then fail short
    else if get32 rep 24 == 0
    then reply (record { total = get64 rep 28; begin = get64 rep 36; bytes = drop 44 rep })
    else fail rejected

-- ===== src/Fs/Kfs.antt =====
-- services/fs/kfs.go: the log-structured file system, its records and what each of them does.
pub mod Log
pub mod Payloads
pub mod Memory
pub mod Append
pub mod Replay
pub mod Frames
pub mod Recover
pub mod After
pub mod Logged
pub mod Durable
pub mod Remount
pub mod Nodes
pub mod NewNodes
pub mod Walk
pub mod Keeps
pub mod Sessions
pub mod Ride
pub mod Lost
pub mod Deleted
pub mod Format
pub mod Paths
pub mod Ops
use mkgo.Common.{
  ℕ, zero, suc, ◌+◌, ◌-◌, ◌*◌, ◌^◌, ◌%◌, ◌≡◌, Bool, true, false, ◌&&◌, ◌||◌, not, List, [], ◌∷◌,
  ◌++◌, length, ltb, leb, ◌==◌, if◌then◌else◌, Option, none, some, drop, get_or,
}
use mkgo.Common.Bytes.{byte_at, copy_at, make_bytes}
use mkgo.Kern.Frame.{le16, le32, le64, get32, get64, append_lstr, lstr}
use mkgo.Fs.Path.{same}

abbrev pub rec_inode : ℕ
rec_inode = 1

abbrev pub rec_dirent : ℕ
rec_dirent = 2

abbrev pub rec_data : ℕ
rec_data = 3

abbrev pub rec_checkpoint : ℕ
rec_checkpoint = 4

abbrev pub hdr_len : ℕ
hdr_len = 9

abbrev pub cp_every : ℕ
cp_every = 64

abbrev pub trunc_sent : ℕ
trunc_sent = 18446744073709551615

abbrev pub root_ino : ℕ
root_ino = 1

abbrev pub kind_file : ℕ
kind_file = 0

abbrev pub kind_dir : ℕ
kind_dir = 1

abbrev pub sector_size : ℕ
sector_size = 512

abbrev pub max_payload : ℕ
max_payload = 65536

abbrev pub log_start : ℕ
log_start = 512

pub record Inode : Type 0 where
  pub ino : ℕ
  pub uid : ℕ
  pub kind : ℕ
  pub size : ℕ

pub record Dirent : Type 0 where
  pub parent : ℕ
  pub name : List ℕ
  pub ino : ℕ
  pub dead : Bool

-- The tables of `KFS`. A key that a Go map lacks reads as `none` here, or as an empty list.
pub record Tables : Type 0 where
  pub inodes : ℕ → Option Inode
  pub children : ℕ → List ℕ
  pub dirents : List Dirent
  pub next_ino : ℕ

-- The map `data`: the contents of the files as far as they are in memory.
abbrev pub Contents : Type 0
Contents = ℕ → List ℕ

abbrev pub no_tables : Tables
no_tables = record { inodes = λ i. none; children = λ i. []; dirents = []; next_ino = 0 }

-- `m[key] = v`.
abbrev pub assign {ℓ} : {A : Type ℓ} → ℕ → A → (ℕ → A) → ℕ → A
assign key v m i = if i == key then v else m i

-- `kfsInodePayload`.
unfoldable pub inode_payload : Inode → List ℕ
inode_payload n = le32 n.ino ++ (le32 n.uid ++ n.kind ∷ le32 n.size)

-- The payloads that `appendDirent` and `appendDirentDelete` build.
unfoldable pub dirent_payload : ℕ → List ℕ → ℕ → List ℕ
dirent_payload parent name ino = append_lstr (le32 parent ++ 0 ∷ []) name ++ le32 ino

unfoldable pub delete_payload : ℕ → List ℕ → List ℕ
delete_payload parent name = append_lstr (le32 parent ++ 1 ∷ []) name

-- The payload that `appendData` builds, and that of `truncate`.
unfoldable pub data_payload : ℕ → ℕ → List ℕ → List ℕ
data_payload ino off b = le32 ino ++ (le64 off ++ (le32 (length b) ++ b))

-- `k.inodes[ino] = &n`, with what replaying an INODE record does to `nextIno`.
unfoldable pub put_inode : Inode → Tables → Tables
put_inode n t = record t {
  inodes = assign n.ino (some n) t.inodes;
  next_ino = if leb t.next_ino n.ino then (n.ino + 1) % 4294967296 else t.next_ino;
}

-- `findDirent`: the first entry of the directory that lives and has the name.
abbrev pub no_dirent : Dirent
no_dirent = record { parent = 0; name = []; ino = 0; dead = true }

abbrev pub dirent_at : Tables → ℕ → Dirent
dirent_at t i = get_or t.dirents i no_dirent

unfoldable pub find_among : Tables → List ℕ → List ℕ → Option ℕ
find_among t name [] = none
find_among t name (i ∷ rest) =
    if not (dirent_at t i).dead && same (dirent_at t i).name name
    then some i
    else find_among t name rest

unfoldable pub find_dirent : ℕ → List ℕ → Tables → Option ℕ
find_dirent parent name t = find_among t name (t.children parent)

-- `k.dirents = append(...)` and `k.children[parent] = append(...)`.
unfoldable pub add_dirent : ℕ → List ℕ → ℕ → Tables → Tables
add_dirent parent name ino t = record t {
  dirents = t.dirents ++ record { parent = parent; name = name; ino = ino; dead = false } ∷ [];
  children = assign parent (t.children parent ++ length t.dirents ∷ []) t.children;
}

-- `k.dirents[idx].dead = true`.
unfoldable pub bury : List Dirent → ℕ → List Dirent
bury [] i = []
bury (d ∷ ds) zero = record d { dead = true } ∷ ds
bury (d ∷ ds) (suc i) = d ∷ bury ds i

-- `removeDirent`.
unfoldable pub remove_dirent : ℕ → List ℕ → Tables → Tables
unfolding find_dirent bury
remove_dirent parent name t = elim (find_dirent parent name t) [
  | none ↦ t
  | some i ↦ record t { dirents = bury t.dirents i }
]

-- What `apply` does: it applies the record, refuses it, or panics.
pub data Applied : Type 0 where
  applied : Tables → Contents → Applied
  refused : Applied
  panics : Applied

unfoldable pub apply_inode : List ℕ → Tables → Contents → Applied
unfolding put_inode
apply_inode p t c =
    if ltb (length p) 13
    then refused
    else applied
        (put_inode
          (record { ino = get32 p 0; uid = get32 p 4; kind = byte_at p 8; size = get32 p 9 }) t)
        c

unfoldable pub apply_entry : List ℕ → List ℕ → ℕ → Tables → Contents → Applied
apply_entry p name next t c =
    if ltb (length p) (next + 4)
    then refused
    else if byte_at p 4 == 1
    then applied (remove_dirent (get32 p 0) name t) c
    else applied (add_dirent (get32 p 0) name (get32 p next) t) c

unfoldable pub apply_dirent : List ℕ → Tables → Contents → Applied
apply_dirent p t c =
    if ltb (length p) 7
    then refused
    else elim (lstr p 5) [ none ↦ refused | some (name, next) ↦ apply_entry p name next t c ]

-- `buf` grown with zeros to `end` bytes, with the source copied to `off`.
abbrev pub grown : List ℕ → ℕ → List ℕ
grown buf end = buf ++ make_bytes (end - length buf)

-- `int(off) + dlen` overflows where it reaches 2 ^ 63; the slice `buf[off:]` is then out of range.
unfoldable pub apply_data : List ℕ → Tables → Contents → Applied
apply_data p t c =
    let ino = get32 p 0 in
    let off = get64 p 4 in
    let dlen = get32 p 12 in
    if ltb (length p) 16 || ltb (length p) (16 + dlen)
    then refused
    else if off == trunc_sent
    then applied t (assign ino [] c)
    else if leb 9223372036854775808 (off + dlen)
    then panics
    else applied t (assign ino (copy_at off (drop 16 p) (grown (c ino) (off + dlen))) c)

unfoldable pub apply_checkpoint : List ℕ → Tables → Contents → Applied
apply_checkpoint p t c =
    if leb 4 (length p) && ltb t.next_ino (get32 p 0)
    then applied (record t { next_ino = get32 p 0 }) c
    else applied t c

-- `apply`.
unfoldable pub apply : ℕ → List ℕ → Tables → Contents → Applied
unfolding apply_inode apply_dirent apply_data apply_checkpoint
apply typ p t c =
    if typ == rec_inode
    then apply_inode p t c
    else if typ == rec_dirent
    then apply_dirent p t c
    else if typ == rec_data
    then apply_data p t c
    else if typ == rec_checkpoint
    then apply_checkpoint p t c
    else refused

-- ===== src/Fs/Kfs/Payloads.antt =====
-- What replaying the payload of each kind of record does.
use mathlib.Core.List.{append-nil}
use mkgo.Common.{
  ℕ, ◌+◌, ◌%◌, ◌≤◌, ◌<◌, ◌≡◌, refl, sym, ◌∙◌, ap, arith, true, false, List, [], ◌∷◌, ◌++◌, length,
  length-append, ltb, leb, ◌==◌, ◌||◌, drop, get_or-append_add, get_or-append_length,
}
use mkgo.Common.Bytes.{byte_at, copy_at}
use mkgo.Kern.Frame.{le16, le32, get32, get64, append_lstr}
use mkgo.Kern.Frame.RoundTrip.{le32_back, lstr-append_lstr}
use mkgo.Fs.Kfs.{
  Inode, Tables, Contents, applied, refused, panics, apply, apply_entry, apply_dirent, apply_data,
  put_inode, add_dirent, assign, grown, inode_payload, dirent_payload, delete_payload, data_payload,
  trunc_sent,
}

-- The numbers of an inode fit the fields of the record.
pub record IsSmall (n : Inode) : Type 0 where
  pub ino_range : n.ino < 4294967296
  pub uid_range : n.uid < 4294967296
  pub size_range : n.size < 4294967296

pub apply-inode_payload :
    (n : Inode) (t : Tables) (c : Contents)
    → IsSmall n
    → apply 1 (inode_payload n) t c ≡ applied (put_inode n t) c
unfolding apply inode_payload
apply-inode_payload n t c s =
    rw (le32_back n.ino s.ino_range, le32_back n.uid s.uid_range, le32_back n.size s.size_range)
      refl

pub length-inode_payload : (n : Inode) → length (inode_payload n) ≡ 13
unfolding inode_payload
length-inode_payload n = refl

get32-append : (xs ys : List ℕ) → get32 (xs ++ ys) (length xs) ≡ get32 ys 0
get32-append xs ys =
    rw
      (
        get_or-append_length xs ys 0,
        get_or-append_add xs ys 1 0,
        get_or-append_add xs ys 2 0,
        get_or-append_add xs ys 3 0,
      )
      refl

-- A directory entry in front of its name: the parent, and 0 for a new one or 1 for a removal.
abbrev entry_start : ℕ → ℕ → List ℕ
entry_start parent op = le32 parent ++ op ∷ []

length-append_lstr : (pre s : List ℕ) → length (append_lstr pre s) ≡ length pre + 2 + length s
unfolding append_lstr
length-append_lstr pre s = omega (arith, length-append pre (le16 (length s % 65536) ++ s))

pub length-dirent_payload :
    (parent : ℕ) (name : List ℕ) (ino : ℕ)
    → length (dirent_payload parent name ino) ≡ 11 + length name
unfolding dirent_payload
length-dirent_payload parent name ino = omega (
  arith,
  length-append (append_lstr (entry_start parent 0) name) (le32 ino),
  length-append_lstr (entry_start parent 0) name,
)

pub length-delete_payload :
    (parent : ℕ) (name : List ℕ) → length (delete_payload parent name) ≡ 7 + length name
unfolding delete_payload
length-delete_payload parent name = omega (arith, length-append_lstr (entry_start parent 1) name)

entry_read :
    (parent op : ℕ) (name post : List ℕ) (t : Tables) (c : Contents)
    → length name < 65536
    → let p = append_lstr (entry_start parent op) name ++ post in
      apply 2 p t c ≡ apply_entry p name (7 + length name) t c
unfolding apply apply_dirent
entry_read parent op name post t c h =
    let pre = entry_start parent op in
    let len = length-append_lstr pre name in
    let long : ltb (length (append_lstr pre name ++ post)) 7 ≡ false =
      let l = length-append (append_lstr pre name) post in ground arith in
    rw (long, lstr-append_lstr pre name post h) refl

entry_parent :
    (parent op : ℕ) (name post : List ℕ)
    → parent < 4294967296
    → (get32 (append_lstr (entry_start parent op) name ++ post) 0 ≡ parent)
      × (byte_at (append_lstr (entry_start parent op) name ++ post) 4 ≡ op)
unfolding append_lstr
entry_parent parent op name post h = (le32_back parent h, refl)

entry_added :
    (parent : ℕ) (name : List ℕ) (ino : ℕ) (t : Tables) (c : Contents)
    → parent < 4294967296
    → ino < 4294967296
    → apply_entry (append_lstr (entry_start parent 0) name ++ le32 ino) name (7 + length name) t c
      ≡ applied (add_dirent parent name ino t) c
unfolding apply_entry
entry_added parent name ino t c hp hi =
    let front = append_lstr (entry_start parent 0) name in
    let len : length front ≡ 7 + length name = length-append_lstr (entry_start parent 0) name in
    let fits : ltb (length (front ++ le32 ino)) (7 + length name + 4) ≡ false =
      let l = length-append front (le32 ino) in ground arith in
    let (at_parent, at_op) = entry_parent parent 0 name (le32 ino) hp in
    let at_ino : get32 (front ++ le32 ino) (7 + length name) ≡ ino =
      ap (get32 (front ++ le32 ino)) (sym len) ∙ get32-append front (le32 ino) ∙ le32_back ino hi in
    let create : byte_at (front ++ le32 ino) 4 == 1 ≡ false = rw at_op refl in
    rw fits (rw create (rw (at_parent, at_ino) refl))

pub apply-dirent_payload :
    (parent : ℕ) (name : List ℕ) (ino : ℕ) (t : Tables) (c : Contents)
    → parent < 4294967296
    → ino < 4294967296
    → length name < 65536
    → apply 2 (dirent_payload parent name ino) t c ≡ applied (add_dirent parent name ino t) c
unfolding dirent_payload
apply-dirent_payload parent name ino t c hp hi hn =
    entry_read parent 0 name (le32 ino) t c hn ∙ entry_added parent name ino t c hp hi

entry_short :
    (parent : ℕ) (name : List ℕ) (t : Tables) (c : Contents)
    → apply_entry (append_lstr (entry_start parent 1) name ++ []) name (7 + length name) t c
      ≡ refused
unfolding apply_entry
entry_short parent name t c =
    let front = append_lstr (entry_start parent 1) name in
    let len = length-append_lstr (entry_start parent 1) name in
    let short : ltb (length (front ++ [])) (7 + length name + 4) ≡ true =
      let l = length-append {0} {A = ℕ} front [] in ground arith in
    rw short refl

-- The removal of an entry has no inode number, for which `apply` asks.
pub apply-delete_payload :
    (parent : ℕ) (name : List ℕ) (t : Tables) (c : Contents)
    → length name < 65536
    → apply 2 (delete_payload parent name) t c ≡ refused
unfolding delete_payload
apply-delete_payload parent name t c h =
    rw (← append-nil (append_lstr (entry_start parent 1) name))
      (entry_read parent 1 name [] t c h ∙ entry_short parent name t c)

data_fields :
    (ino off : ℕ) (b : List ℕ)
    → length b < 4294967296
    → off < 18446744073709551616
    → (get64 (data_payload ino off b) 4 ≡ off)
      × (get32 (data_payload ino off b) 12 ≡ length b)
      × (length (data_payload ino off b) ≡ 16 + length b)
unfolding data_payload
data_fields ino off b hb ho = (omega arith, le32_back (length b) hb, omega arith)

data_applied :
    (p : List ℕ) (off n : ℕ) (t : Tables) (c : Contents)
    → get64 p 4 ≡ off
    → get32 p 12 ≡ n
    → length p ≡ 16 + n
    → off + n < 9223372036854775808
    → (c' : Contents) × (apply_data p t c ≡ applied t c')
unfolding apply_data
data_applied p off n t c at_off at_len len h =
    let fits : ltb (length p) 16 || ltb (length p) (16 + n) ≡ false = ground arith in
    let plain : off == trunc_sent ≡ false = ground arith in
    let inside : leb 9223372036854775808 (off + n) ≡ false = ground arith in
    let ino = get32 p 0 in
    (
      assign ino (copy_at off (drop 16 p) (grown (c ino) (off + n))) c,
      rw at_len (rw fits (rw at_off (rw plain (rw inside refl)))),
    )

-- Data that ends below 2^63 is written over what the file holds; a record with the sentinel empties
-- it. Neither changes a table.
pub length-data_payload :
    (ino off : ℕ) (b : List ℕ) → length (data_payload ino off b) ≡ 16 + length b
unfolding data_payload
length-data_payload ino off b = omega arith

pub apply-data_payload :
    (ino off : ℕ) (b : List ℕ) (t : Tables) (c : Contents)
    → length b < 4294967296
    → off + length b < 9223372036854775808
    → (c' : Contents) × (apply 3 (data_payload ino off b) t c ≡ applied t c')
unfolding apply
apply-data_payload ino off b t c hb ho =
    let (at_off, at_len, len) = data_fields ino off b hb (omega arith) in
    data_applied (data_payload ino off b) off (length b) t c at_off at_len len ho

-- Data that ends at 2^63 or behind makes the replay panic, but for the sentinel's offset.
pub apply-data_payload_panics :
    (ino off : ℕ) (b : List ℕ) (t : Tables) (c : Contents)
    → length b < 4294967296
    → off < trunc_sent
    → 9223372036854775808 ≤ off + length b
    → apply 3 (data_payload ino off b) t c ≡ panics
unfolding apply apply_data
apply-data_payload_panics ino off b t c hb hs ho =
    let (at_off, at_len, len) = data_fields ino off b hb (omega arith) in
    let p = data_payload ino off b in
    let fits : ltb (length p) 16 || ltb (length p) (16 + length b) ≡ false = ground arith in
    let plain : off == trunc_sent ≡ false = ground arith in
    let beyond : leb 9223372036854775808 (off + length b) ≡ true = ground arith in
    rw at_len (rw fits (rw at_off (rw plain (rw beyond refl))))

pub apply-data_payload_sentinel :
    (ino : ℕ) (t : Tables) (c : Contents)
    → (c' : Contents) × (apply 3 (data_payload ino trunc_sent []) t c ≡ applied t c')
unfolding apply data_payload
apply-data_payload_sentinel ino t c = (_, refl)

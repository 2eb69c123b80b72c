-- ===== src/Kern/Registry/Decode.antt =====
-- Replies in the format of abi/ABI.md decode to the records they hold.
use mkgo.Common.{
  get_or-append_add, drop-append_add, get_or-append_length, length-drop, Bool-cases, inl, inr, ℕ,
  zero, suc, ◌+◌, ◌-◌, ◌*◌, ◌<◌, ◌≤◌, ◌≡◌, refl, ap, arith, List, [], ◌∷◌, ◌++◌, length,
  length-append, ltb, take, drop, false, All, take-length_append, drop-length_append,
}
use mathlib.Core.List.{append-nil, append_assoc}
use mkgo.Common.Bytes.{byte_at}
use mkgo.Kern.Frame.{le32, get32, pad_name}
use mkgo.Kern.Frame.RoundTrip.{IsName, le32_back, length-pad_name, cstr16-pad_name}
use mkgo.Kern.Client.{reply}
use mkgo.Kern.Registry.Replies.{SessionInfo, records, read_session, decode_list}

drop_written : (n : ℕ) (xs ys : List ℕ) → length xs ≡ n → drop n (xs ++ ys) ≡ ys
drop_written n xs ys e = rw (← e) (drop-length_append xs ys)

-- One record more.
next_fits : (size m n left : ℕ) → size ≤ n → left ≡ n - size → size * m ≤ left → size * suc m ≤ n
next_fits size m n left h e fits = grind arith

-- One record after the other.
abbrev pub write_all : {A : Type 0} → (A → List ℕ) → List A → List ℕ
write_all write [] = []
write_all write (a ∷ l) = write a ++ write_all write l

module _ {A : Type 0} (size : ℕ) (read : List ℕ → A) (write : A → List ℕ) (Fits : A → Type 0)
    (length-write : (a : A) → Fits a → length (write a) ≡ size)
    (read-write : (a : A) (rest : List ℕ) → Fits a → read (write a ++ rest) ≡ a) where
  -- The loop reads the records that were written, whatever stands behind them.
  records-write_all :
      (l : List A) (rest : List ℕ)
      → All Fits l
      → records size read (length l) (write_all write l ++ rest) ≡ l
  unfolding records
  records-write_all [] rest h = refl
  records-write_all (a ∷ l) rest (ha, hl) =
      let all : List ℕ = write_all write l ++ rest in
      let whole : ltb (length (write a ++ all)) size ≡ false =
        ground (arith, length-append (write a) all, length-write a ha) in
      let next : drop size (write a ++ all) ≡ all =
        drop_written size (write a) all (length-write a ha) in
      rw (append_assoc (write a) (write_all write l) rest) (
        rw (whole, next, read-write a all ha)
          (ap (λ (m : List A). a ∷ m) (records-write_all l rest hl)))

-- The loop over the records stays inside the reply: it reads at most as many records as the count
-- says, and only records that are whole, whatever the count claims.
pub records_bounds {ℓ} :
    {A : Type ℓ} (size n : ℕ) (read : List ℕ → A) (rest : List ℕ)
    → (length (records size read n rest) ≤ n)
      × (size * length (records size read n rest) ≤ length rest)
unfolding records
records_bounds size zero read rest = (omega arith, omega arith)
records_bounds size (suc n) read rest = elim (Bool-cases (ltb (length rest) size)) [
  | inl short_ ↦ rw short_ (omega arith, omega arith)
  | inr whole ↦ rw whole (
      let (few, small) = records_bounds size n read (drop size rest) in
      let left = length-drop size rest in
      (omega arith, next_fits size _ (length rest) _ (ground (arith, whole)) left small))
]

pub record IsSession (i : SessionInfo) : Type 0 where
  pub sid_word : i.sid < 4294967296
  pub uid_word : i.uid < 4294967296
  pub name_chars : IsName i.name
  pub name_fits : length i.name ≤ 16

-- A `LIST` record as the kernel lays it out.
abbrev pub write_session : SessionInfo → List ℕ
write_session i = le32 i.sid ++ (le32 i.uid ++ (i.state ∷ (pad_name i.name ++ i.source ∷ [])))

length-write_session : (i : SessionInfo) → IsSession i → length (write_session i) ≡ 26
length-write_session i h =
    omega (arith, length-append (pad_name i.name) (i.source ∷ []), length-pad_name i.name)

behind_field : (f : List ℕ) (x : ℕ) (rest : List ℕ) → length f ≡ 16 → byte_at (f ++ x ∷ rest) 16 ≡ x
behind_field f x rest e = rw (← e) (get_or-append_length f (x ∷ rest) 0)

take_16 : (f rest : List ℕ) → length f ≡ 16 → take 16 (f ++ rest) ≡ f
take_16 f rest e = rw (← e) (take-length_append f rest)

read_session-write_session :
    (i : SessionInfo) (rest : List ℕ) → IsSession i → read_session (write_session i ++ rest) ≡ i
read_session-write_session i rest h =
    let own = length-pad_name i.name in
    rw (append_assoc (pad_name i.name) (i.source ∷ []) rest) (
      rw
        (
          take_16 (pad_name i.name) (i.source ∷ rest) own,
          behind_field (pad_name i.name) i.source rest own,
        )
        (rw
          (
            cstr16-pad_name i.name h.name_chars h.name_fits,
            le32_back i.sid h.sid_word,
            le32_back i.uid h.uid_word,
          )
          refl))

-- A reply: the header, the number of records and the records.
abbrev pub list_reply : List ℕ → List SessionInfo → List ℕ
list_reply head l = head ++ (le32 (length l) ++ write_all write_session l)

behind_header :
    (head rest : List ℕ) (i : ℕ)
    → length head ≡ 24
    → byte_at (head ++ rest) (24 + i) ≡ byte_at rest i
behind_header head rest i e = rw (← e) (get_or-append_add head rest i 0)

drop_behind :
    (n m : ℕ) (head rest : List ℕ) → length head ≡ n → drop (n + m) (head ++ rest) ≡ drop m rest
drop_behind n m head rest e = rw (← e) (drop-append_add head rest m)

-- `List` returns the sessions that the reply holds, behind any header of 24 bytes, when there are
-- fewer than 2^32 of them, their numbers are 32-bit words, and their names have no zero byte and
-- at most 16 bytes.
pub decode_list-list_reply :
    (head : List ℕ) (l : List SessionInfo)
    → length head ≡ 24
    → length l < 4294967296
    → All IsSession l
    → decode_list (list_reply head l) ≡ reply l
unfolding decode_list
decode_list-list_reply head l e small h =
    let body : List ℕ = write_all write_session l in
    let rest : List ℕ = le32 (length l) ++ body in
    let whole : ltb (length (head ++ rest)) 28 ≡ false =
      ground (arith, length-append head rest, e) in
    let count : get32 (head ++ rest) 24 ≡ length l =
      rw (behind_header head rest 0 e, behind_header head rest 1 e)
        (rw (behind_header head rest 2 e, behind_header head rest 3 e)
          (le32_back (length l) small)) in
    let all =
      records-write_all 26 read_session write_session IsSession length-write_session
        read_session-write_session l [] h in
    rw (whole, count) (rw (drop_behind 24 4 head rest e) (ap reply (rw (append-nil body) at all)))

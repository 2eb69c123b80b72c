-- ===== src/Jitc/Cursor.antt =====
-- The bounds-checked reader of services/jitc/leb.go, and how its methods are chained.
use mkgo.Common.{
  ℕ, zero, suc, ◌≢◌, ◌+◌, ◌≤◌, ◌≡◌, refl, arith, Bool, true, false, List, [], ◌∷◌, length,
  length-drop, take, drop, ltb, if◌then◌else◌, Bool-cases, inl, inr,
}

-- The errors of the decoder; `malformed` stands for those that `fmt.Errorf` makes.
pub data Error : Type 0 where
  truncated : Error
  overflow : Error
  bad_magic : Error
  bad_version : Error
  bad_section : Error
  body_size : Error
  unsupported : Error
  malformed : Error
  out_of_fuel : Error

pub data Result {ℓ} (A : Type ℓ) : Type ℓ where
  ok : A → Result A
  err : Error → Result A

-- `cursor`: the bytes of `b[off:]`, and `off`.
pub record Cursor : Type 0 where
  pub left : List ℕ
  pub off : ℕ

-- A method on the cursor; after an error the cursor is not used.
abbrev pub Parse {ℓ} : Type ℓ → Type ℓ
Parse A = Cursor → Result (A × Cursor)

abbrev pub continue {ℓ κ} :
    {A : Type ℓ} {B : Type κ} → Result (A × Cursor) → (A → Parse B) → Result (B × Cursor)
continue (ok (a, c)) f = f a c
continue (err e) f = err e

infixl 5 ◌>>=◌ ◌>>◌
abbrev pub ◌>>=◌ {ℓ κ} : {A : Type ℓ} {B : Type κ} → Parse A → (A → Parse B) → Parse B
◌>>=◌ p f c = continue (p c) f

abbrev pub ◌>>◌ {ℓ} : {B : Type ℓ} → Parse (Unit {0}) → Parse B → Parse B
p >> q = p >>= λ _. q

abbrev pub pure {ℓ} : {A : Type ℓ} → A → Parse A
pure a c = ok (a, c)

abbrev pub fail {ℓ} : {A : Type ℓ} → Error → Parse A
fail e c = err e

-- `if bad { return e }`.
abbrev pub refuse : Bool → Error → Parse (Unit {0})
refuse bad e c = if bad then err e else ok (tt, c)

abbrev pub rest : Cursor → ℕ
rest c = length c.left

-- `u8` and `bytes`.
abbrev pub u8_of : List ℕ → ℕ → Result (ℕ × Cursor)
u8_of [] off = err truncated
u8_of (b ∷ left) off = ok (b, record { left = left; off = off + 1 })

unfoldable pub u8 : Parse ℕ
u8 c = u8_of c.left c.off

unfoldable pub bytes : ℕ → Parse (List ℕ)
bytes n c =
    if ltb (rest c) n
    then err truncated
    else ok (take n c.left, record { left = drop n c.left; off = c.off + n })

-- A loop that reads `n` items and appends them to a slice.
unfoldable pub many {ℓ} : {A : Type ℓ} → ℕ → Parse A → Parse (List A)
many zero p = pure []
many (suc n) p = do a ← p; l ← many n p; pure (a ∷ l)

-- The offset has moved by as many bytes as were read.
pub record Reads (c c' : Cursor) : Type 0 where
  pub shrinks : rest c' ≤ rest c
  pub moves : c'.off + rest c' ≡ c.off + rest c

abbrev pub starved : Error → Bool
starved out_of_fuel = true
starved _ = false

-- A method that reads forwards, and that does not run out of fuel.
abbrev pub Outcome {ℓ} : {A : Type ℓ} → Cursor → Result (A × Cursor) → Type 0
Outcome c (ok (a, c')) = Reads c c'
Outcome c (err e) = starved e ≡ false

abbrev pub Reader {ℓ} : {A : Type ℓ} → Parse A → Type 0
Reader p = (c : Cursor) → Outcome c (p c)

pub Reads-trans : (c d e : Cursor) → Reads c d → Reads d e → Reads c e
Reads-trans c d e h k = ground (arith, h, k)

pub Reads-refl : (c : Cursor) → Reads c c
Reads-refl c = ground arith

-- The parts of a chain that succeeds.
continue-eq-ok {ℓ κ} :
    {A : Type ℓ} {B : Type κ} (r : Result (A × Cursor)) (f : A → Parse B) {b : B} {c'' : Cursor}
    → continue r f ≡ ok (b, c'')
    → (a : A) × (c' : Cursor) × (r ≡ ok (a, c')) × (f a c' ≡ ok (b, c''))
continue-eq-ok (ok (a, c')) f h = (a, c', refl, h)
continue-eq-ok (err e) f h = cc

pub >>=-eq-ok {ℓ κ} :
    {A : Type ℓ} {B : Type κ} (p : Parse A) (f : A → Parse B) (c : Cursor) {b : B} {c'' : Cursor}
    → (p >>= f) c ≡ ok (b, c'')
    → (a : A) × (c' : Cursor) × (p c ≡ ok (a, c')) × (f a c' ≡ ok (b, c''))
>>=-eq-ok p f c h = continue-eq-ok (p c) f h

pub weaken {ℓ} :
    {A : Type ℓ} (c d : Cursor) (r : Result (A × Cursor)) → Reads c d → Outcome d r → Outcome c r
weaken c d (ok (a, e)) h k = Reads-trans c d e h k
weaken c d (err e) h k = k

-- The rest of a chain starts behind its first part.
pub continue-Outcome {ℓ κ} :
    {A : Type ℓ} {B : Type κ} (c : Cursor) (r : Result (A × Cursor)) (f : A → Parse B)
    → Outcome c r
    → ((a : A) (d : Cursor) → Reads c d → Outcome d (f a d))
    → Outcome c (continue r f)
continue-Outcome c (ok (a, d)) f h k = weaken c d (f a d) h (k a d h)
continue-Outcome c (err e) f h k = h

pub >>=-Reader {ℓ κ} :
    {A : Type ℓ} {B : Type κ} (p : Parse A) (f : A → Parse B)
    → Reader p
    → ((a : A) → Reader (f a))
    → Reader (p >>= f)
>>=-Reader p f h k c = continue-Outcome c (p c) f (h c) (λ a d _. k a d)

pub pure-Reader {ℓ} : {A : Type ℓ} (a : A) → Reader (pure a)
pure-Reader a c = Reads-refl c

pub refuse-Reader : (bad : Bool) (e : Error) → starved e ≡ false → Reader (refuse bad e)
refuse-Reader true e h c = h
refuse-Reader false e h c = Reads-refl c

pub fail-Reader {ℓ} : (A : Type ℓ) (e : Error) → starved e ≡ false → Reader (fail {A = A} e)
fail-Reader A e h c = h

pub if-Reader {ℓ} :
    {A : Type ℓ} (b : Bool) (p q : Parse A) → Reader p → Reader q → Reader (if b then p else q)
if-Reader true p q h k = h
if-Reader false p q h k = k

u8_of-Outcome : (l : List ℕ) (off : ℕ) → Outcome (record { left = l; off = off }) (u8_of l off)
u8_of-Outcome [] off = refl
u8_of-Outcome (x ∷ l) off = ground arith

pub u8-Reader : Reader u8
unfolding u8
u8-Reader c = u8_of-Outcome c.left c.off

-- There is a byte to read.
u8_of-next :
    (l : List ℕ) (off : ℕ)
    → length l ≢ 0
    → (b : ℕ) × (d : Cursor) × (u8_of l off ≡ ok (b, d))
      × (suc (rest d) ≡ length l)
      × (d.off ≡ off + 1)
u8_of-next [] off ne = absurd (ne refl)
u8_of-next (b ∷ l) off ne = (b, record { left = l; off = off + 1 }, refl, refl, refl)

pub u8-next :
    (c : Cursor)
    → rest c ≢ 0
    → (b : ℕ) × (d : Cursor) × (u8 c ≡ ok (b, d)) × (suc (rest d) ≡ rest c) × Reads c d
unfolding u8
u8-next c ne = let (b, d, e, len, off) = u8_of-next c.left c.off ne in (b, d, e, len, ground arith)

pub bytes-Reader : (n : ℕ) → Reader (bytes n)
unfolding bytes
bytes-Reader n c = elim (Bool-cases (ltb (rest c) n)) [
  | inl short ↦ rw short refl
  | inr long ↦ rw long (ground (arith, length-drop n c.left))
]

pub many-Reader {ℓ} : {A : Type ℓ} (n : ℕ) (p : Parse A) → Reader p → Reader (many n p)
unfolding many
many-Reader {A} zero p h = pure-Reader {A = List A} []
many-Reader {A} (suc n) p h =
    >>=-Reader p _ h (λ a. >>=-Reader (many n p) _ (many-Reader n p h) (λ l. pure-Reader (a ∷ l)))

-- What a successful read says.
Outcome-Reads {ℓ} :
    {A : Type ℓ} (c : Cursor) (r : Result (A × Cursor)) (a : A) (c' : Cursor)
    → Outcome c r
    → r ≡ ok (a, c')
    → Reads c c'
Outcome-Reads c (ok (b, d)) a c' h e = ground (arith, h, e)
Outcome-Reads c (err f) a c' h e = cc

pub reads {ℓ} :
    {A : Type ℓ} (p : Parse A) (c : Cursor) (a : A) (c' : Cursor)
    → Reader p
    → p c ≡ ok (a, c')
    → Reads c c'
reads p c a c' h e = Outcome-Reads c (p c) a c' (h c) e

-- ===== src/Init/Policy.antt =====
-- `RespawnPolicy`'s payload and `SplitPolicyPayload` of guests/lib/initctl.go.
use mkgo.Common.{
  ℕ, ◌≡◌, refl, ap, arith, Bool, true, false, List, [], ◌∷◌, ◌++◌, ◌==◌, if◌then◌else◌, Option,
  none, some, Bool-cases, inl, inr,
}
use mkgo.Kern.Frame.RoundTrip.{IsName}

-- `boolByte`: the characters '1' and '0'.
abbrev bool_byte : Bool → ℕ
bool_byte true = 49
bool_byte false = 48

-- `append(append([]byte(svc), 0), boolByte(yes))`.
unfoldable pub policy_payload : List ℕ → Bool → List ℕ
policy_payload name yes_ = (name ++ 0 ∷ []) ++ bool_byte yes_ ∷ []

-- What may stand behind the first zero byte: one flag and nothing else.
unfoldable pub policy_flag : List ℕ → Option Bool
policy_flag (x ∷ []) = if x == 49 then some true else if x == 48 then some false else none
policy_flag _ = none

unfoldable pub with_flag : List ℕ → Option Bool → Option (List ℕ × Bool)
with_flag name none = none
with_flag name (some yes_) = some (name, yes_)

unfoldable pub before : ℕ → Option (List ℕ × Bool) → Option (List ℕ × Bool)
before x none = none
before x (some (name, yes_)) = some (x ∷ name, yes_)

-- `SplitPolicyPayload`: the search for the first zero byte, with the bytes before it as the name.
unfoldable pub split_policy_payload : List ℕ → Option (List ℕ × Bool)
split_policy_payload [] = none
split_policy_payload (x ∷ pl) =
    let rest = split_policy_payload pl in
    if x == 0 then with_flag [] (policy_flag pl) else before x rest

-- What `RespawnPolicy` sends, `SplitPolicyPayload` takes apart, for every name without a zero
-- byte.
pub split_policy_payload-policy_payload :
    (name : List ℕ) (yes_ : Bool)
    → IsName name
    → split_policy_payload (policy_payload name yes_) ≡ some (name, yes_)
unfolding policy_payload split_policy_payload with_flag before policy_flag
split_policy_payload-policy_payload [] true h = refl
split_policy_payload-policy_payload [] false h = refl
split_policy_payload-policy_payload (x ∷ name) yes_ (hx, hs) =
    let ih = split_policy_payload-policy_payload name yes_ hs in ground (arith, ih, hx)

flag_back : (x : ℕ) (b : Bool) → policy_flag (x ∷ []) ≡ some b → x ≡ bool_byte b
unfolding policy_flag
flag_back x true e = ground arith
flag_back x false e = ground arith

flag_shape :
    (pl name : List ℕ) (yes_ : Bool)
    → with_flag [] (policy_flag pl) ≡ some (name, yes_)
    → (name ≡ []) × (pl ≡ bool_byte yes_ ∷ [])
unfolding with_flag policy_flag
flag_shape [] name yes_ e = cc
flag_shape (x ∷ []) name true e = ground arith
flag_shape (x ∷ []) name false e = ground arith
flag_shape (x ∷ y ∷ pl) name yes_ e = cc

before_shape :
    (x : ℕ) (o : Option (List ℕ × Bool)) (name : List ℕ) (yes_ : Bool)
    → before x o ≡ some (name, yes_)
    → (short : List ℕ) × (o ≡ some (short, yes_)) × (name ≡ x ∷ short)
unfolding before
before_shape x none name yes_ e = cc
before_shape x (some (short, b)) name yes_ e = (short, cc, cc)

-- `SplitPolicyPayload` accepts nothing else: a payload that it takes apart is the one that
-- `RespawnPolicy` sends for the name and the flag it returns.
pub split_policy_payload-only :
    (pl name : List ℕ) (yes_ : Bool)
    → split_policy_payload pl ≡ some (name, yes_)
    → pl ≡ policy_payload name yes_
unfolding policy_payload split_policy_payload
split_policy_payload-only [] name yes_ e = cc
split_policy_payload-only (x ∷ pl) name yes_ e = elim (Bool-cases (x == 0)) [
  | inl here ↦ (let (n, p) = flag_shape pl name yes_ (rw here at e) in ground (arith, n, p, here))
  | inr later ↦
      (let (short, o, n) = before_shape x (split_policy_payload pl) name yes_ (rw later at e) in
        rw n (ap (λ (l : List ℕ). x ∷ l) (split_policy_payload-only pl short yes_ o)))
]

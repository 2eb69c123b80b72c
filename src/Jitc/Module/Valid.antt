-- ===== src/Jitc/Module/Valid.antt =====
-- What a decoded module promises.
use mkgo.Common.{
  ℕ, zero, suc, ◌≤◌, ◌<◌, ◌≡◌, refl, arith, Bool, true, false, not, length, All, ltb, leb, ◌==◌,
}
use mkgo.Jitc.Cursor.{Error, malformed, Result, ok, err, Cursor, Parse, refuse, u8, many, continue}
use mkgo.Jitc.Leb.{u32leb, vec_len, name}
use mkgo.Jitc.Code.{FuncBody, valid_val_type, ends}
use mkgo.Jitc.Items.{FuncType, Export, val_type, decode_type, decode_func, decode_export, vector}
use mkgo.Jitc.Module.{Module}

-- A result, if there is one, has the property.
abbrev pub Gives {ℓ κ} : {A : Type ℓ} → (A → Type κ) → Result (A × Cursor) → Type κ
Gives P (ok (a, c)) = P a
Gives P (err e) = Unit

abbrev pub Ensures {ℓ κ} : {A : Type ℓ} → (A → Type κ) → Parse A → Type κ
Ensures P p = (c : Cursor) → Gives P (p c)

module _ {ℓ κ} {A : Type ℓ} {B : Type κ} where
  pub continue-Gives {μ ν} :
      (Q : A → Type μ) (P : B → Type ν) (r : Result (A × Cursor)) (f : A → Parse B)
      → Gives Q r
      → ((a : A) → Q a → Ensures P (f a))
      → Gives P (continue r f)
  continue-Gives Q P (ok (a, c)) f h k = k a h c
  continue-Gives Q P (err e) f h k = tt

  pub after {ν} :
      (P : B → Type ν) (r : Result (A × Cursor)) (f : A → Parse B)
      → ((a : A) → Ensures P (f a))
      → Gives P (continue r f)
  after P (ok (a, c)) f k = k a c
  after P (err e) f k = tt

many-Ensures {ℓ κ} :
    {A : Type ℓ} (P : A → Type κ) (n : ℕ) (p : Parse A) → Ensures P p → Ensures (All P) (many n p)
unfolding many
many-Ensures P zero p h c = tt
many-Ensures P (suc n) p h c = continue-Gives P (All P) (p c) _ (h c) (λ a ha d.
    continue-Gives (All P) (All P) (many n p d) _ (many-Ensures P n p h d) (λ l hl e. (ha, hl)))

pub vector-Ensures {ℓ κ} :
    {A : Type ℓ} (P : A → Type κ) (p : Parse A) → Ensures P p → Ensures (All P) (vector p)
unfolding vector
vector-Ensures P p h c = after (All P) (vec_len c) _ (λ n. many-Ensures P n p h)

pub refuse-Ensures : (bad : Bool) (e : Error) → Ensures (λ _. bad ≡ false) (refuse bad e)
refuse-Ensures true e c = tt
refuse-Ensures false e c = refl

-- The entries of a module are in range: the types are value types, every function has a type, and
-- every body ends with `end`.
abbrev pub IsValType : ℕ → Type 0
IsValType v = valid_val_type v ≡ true

pub record IsFuncType (t : FuncType) : Type 0 where
  pub valid_params : All IsValType t.params
  pub valid_results : All IsValType t.results

pub record IsModule (m : Module) : Type 0 where
  pub valid_types : All IsFuncType m.types
  pub valid_funcs : All (λ f. f < length m.types) m.funcs
  pub valid_exports : All (λ e. Export.kind e ≤ 3) m.exports
  pub valid_code : All (λ f. ends (FuncBody.ops f) ≡ true) m.code

val_type-Ensures : Ensures IsValType val_type
unfolding val_type
val_type-Ensures c = after IsValType (u8 c) _ (λ v d.
    continue-Gives (λ _. not (valid_val_type v) ≡ false) IsValType
      (refuse (not (valid_val_type v)) malformed d) _
      (refuse-Ensures (not (valid_val_type v)) malformed d) (λ _ fine e. ground arith))

pub type-Ensures : Ensures IsFuncType decode_type
unfolding decode_type
type-Ensures c = after IsFuncType (u8 c) _ (λ tag. λ d.
    after IsFuncType (refuse (not (tag == 0x60)) malformed d) _ (λ _ e.
      after IsFuncType (vec_len e) _ (λ np f.
        continue-Gives (All IsValType) IsFuncType (many np val_type f) _
          (many-Ensures IsValType np val_type val_type-Ensures f)
          (λ ps hp g. after IsFuncType (vec_len g) _ (λ nr h.
            continue-Gives (All IsValType) IsFuncType (many nr val_type h) _
              (many-Ensures IsValType nr val_type val_type-Ensures h)
              (λ rs hr k. record { valid_params = hp; valid_results = hr }))))))

pub func-Ensures : (n : ℕ) → Ensures (λ t. t < n) (decode_func n)
unfolding decode_func
func-Ensures n c =
    after (λ t. t < n) (u32leb c) _
      (λ t d.
        continue-Gives (λ _. leb n t ≡ false) (λ t. t < n) (refuse (leb n t) malformed d) _
          (refuse-Ensures (leb n t) malformed d) (λ _ fine e. ground arith))

pub export-Ensures : Ensures (λ e. Export.kind e ≤ 3) decode_export
unfolding decode_export
export-Ensures c =
    after (λ e. Export.kind e ≤ 3) (name c) _
      (λ nm d.
        after (λ e. Export.kind e ≤ 3) (u8 d) _
          (λ kind f.
            after (λ e. Export.kind e ≤ 3) (u32leb f) _
              (λ idx g.
                continue-Gives (λ _. ltb 3 kind ≡ false) (λ e. Export.kind e ≤ 3)
                  (refuse (ltb 3 kind) malformed g) _ (refuse-Ensures (ltb 3 kind) malformed g)
                  (λ _ fine h. ground arith))))

-- ===== src/Jitc/Alu/Traps.antt =====
-- When an integer instruction traps, and what it pushes.
use mkgo.Common.{
  ℕ, ◌-◌, ◌%◌, ◌≡◌, inl, inr, refl, sym, ◌∙◌, arith, Bool, true, false, ◌&&◌, ◌||◌, List, [], ◌∷◌,
  ◌==◌, if◌then◌else◌, Option, none, some, Bool-cases,
}
use mkgo.Jitc.Code.{between}
use mkgo.Jitc.Alu.{
  w32, w64, Step, pushed, trapped, failed, trap_div_zero, unary, push_result, binary, bit,
  compare_op, unless_zero, arith_op, is_unary, alu_int,
}

-- A division or remainder by zero.
abbrev pub by_zero : ℕ → ℕ → Bool
by_zero n y = between 3 6 n && y == 0

abbrev is_none : Option ℕ → Bool
is_none none = true
is_none (some v) = false

unless_zero-none : (y v : ℕ) → is_none (unless_zero y v) ≡ y == 0
unless_zero-none y v = elim (Bool-cases (y == 0)) [ inl e ↦ rw e refl | inr e ↦ rw e refl ]

-- A branch of the switch that is not taken.
skip :
    (b r : Bool) (o p : Option ℕ)
    → (b ≡ true → is_none o ≡ r)
    → (b ≡ false → is_none p ≡ r)
    → is_none (if b then o else p) ≡ r
skip true r o p h k = h refl
skip false r o p h k = k refl

total :
    (b : Bool) (v : ℕ) (p : Option ℕ)
    → is_none p ≡ false
    → is_none (if b then some v else p) ≡ false
total true v p h = refl
total false v p h = h

arith_op-none : (m w n x y : ℕ) → is_none (arith_op m w n x y) ≡ by_zero n y
unfolding arith_op
arith_op-none m w n x y =
    let r = by_zero n y in
    skip (n == 0) r _ _ (λ e. ground arith)
      (λ e0.
        skip (n == 1) r _ _ (λ e. ground arith)
          (λ e1.
            skip (n == 2) r _ _ (λ e. ground arith)
              (λ e2.
                skip (n == 3) r _ _ (λ e. unless_zero-none y _ ∙ ground arith)
                  (λ e3.
                    skip (n == 4) r _ _ (λ e. unless_zero-none y _ ∙ ground arith)
                      (λ e4.
                        skip (n == 5) r _ _ (λ e. unless_zero-none y _ ∙ ground arith)
                          (λ e5.
                            skip (n == 6) r _ _ (λ e. unless_zero-none y _ ∙ ground arith)
                              (λ e6.
                                let beyond : r ≡ false = ground arith in
                                total (n == 7) _ _ (
                                  total (n == 8) _ _ (
                                    total (n == 9) _ _ (
                                      total (n == 10) _ _ (
                                        total (n == 11) _ _
                                          (total (n == 12) _ _ (total (n == 13) _ _ refl))))))
                                ∙ sym beyond)))))))

-- An instruction that divides, with a zero divisor.
abbrev pub divides_by_zero : ℕ → ℕ → Bool
divides_by_zero op b = between 0x6D 0x70 op && b % w32 == 0 || between 0x7F 0x82 op && b == 0

-- The opcodes of the integer instructions.
abbrev pub is_integer : ℕ → Bool
is_integer op =
    is_unary op
    || between 0x46 0x4F op
    || between 0x51 0x5A op
    || between 0x6A 0x78 op
    || between 0x7C 0x8A op

-- With `zero_divisor` the step is the trap; else it pushes one value on `left`.
abbrev pub Effect : Bool → List ℕ → Step → Type 0
Effect zero_divisor left (pushed []) = ⊥
Effect zero_divisor left (pushed (v ∷ s)) = (zero_divisor ≡ false) × (s ≡ left)
Effect zero_divisor left (trapped code) = (zero_divisor ≡ true) × (code ≡ trap_div_zero)
Effect zero_divisor left failed = ⊥

binary-Effect :
    (f : ℕ → ℕ → Option ℕ) (a b : ℕ) (s : List ℕ) (r : Bool)
    → is_none (f a b) ≡ r
    → Effect r s (binary f (b ∷ a ∷ s))
unfolding binary
binary-Effect f a b s r h = go (f a b) h
  where
    go : (o : Option ℕ) → is_none o ≡ r → Effect r s (push_result o s)
    go none e = (sym e, refl)
    go (some v) e = (sym e, refl)

choose :
    (c r : Bool) (l : List ℕ) (p q : Step)
    → (c ≡ true → Effect r l p)
    → (c ≡ false → Effect r l q)
    → Effect r l (if c then p else q)
choose true r l p q h k = h refl
choose false r l p q h k = k refl

-- What an integer instruction leaves of a stack with two values on top.
abbrev pub under : ℕ → ℕ → List ℕ → List ℕ
under op a s = if is_unary op then a ∷ s else s

-- With two values on the stack an integer instruction traps exactly when it divides, or takes the
-- remainder, by a divisor that is zero in the instruction's width, and then with the code of a
-- division by zero. Otherwise it pushes one value, in place of one operand or of both. It never
-- fails.
pub alu_int-Effect :
    (op a b : ℕ) (s : List ℕ)
    → is_integer op ≡ true
    → Effect (divides_by_zero op b) (under op a s) (alu_int op (b ∷ a ∷ s))
unfolding alu_int unary
alu_int-Effect op a b s int =
    let r = divides_by_zero op b in
    let l = under op a s in
    choose (is_unary op) r l _ _ (λ e. ground arith)
      (λ e0. rw e0 (
        choose (between 0x46 0x4F op) r s _ _
          (λ e.
            binary-Effect (λ a b. some (bit (compare_op w32 (op - 0x46) (a % w32) (b % w32)))) a b s
              r (ground arith))
          (λ e1.
            choose (between 0x51 0x5A op) r s _ _
              (λ e.
                binary-Effect (λ a b. some (bit (compare_op w64 (op - 0x51) a b))) a b s r
                  (ground arith))
              (λ e2.
                choose (between 0x6A 0x78 op) r s _ _
                  (λ e.
                    binary-Effect (λ a b. arith_op w32 32 (op - 0x6A) (a % w32) (b % w32)) a b s r
                      (arith_op-none w32 32 (op - 0x6A) (a % w32) (b % w32) ∙ ground arith))
                  (λ e3.
                    choose (between 0x7C 0x8A op) r s _ _
                      (λ e.
                        binary-Effect (arith_op w64 64 (op - 0x7C)) a b s r
                          (arith_op-none w64 64 (op - 0x7C) a b ∙ ground arith))
                      (λ e4. absurd (ground arith)))))))

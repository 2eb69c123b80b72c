-- ===== src/Kern/Client/Book.antt =====
-- `ReplyBook` of guests/lib/frame.go: a server binds each reply port once.
use mkgo.Common.{
  ℕ, ◌==◌, ◌&&◌, List, [], ◌∷◌, Bool, true, false, if◌then◌else◌, Option, none, some, ◌≡◌, refl,
  ◌∙◌, arith,
}
use mkgo.Kern.Client.{Kernel}

-- Go's `==` on strings.
abbrev pub name_eq : List ℕ → List ℕ → Bool
name_eq [] [] = true
name_eq (x ∷ xs) (y ∷ ys) = x == y && name_eq xs ys
name_eq _ _ = false

pub name_eq_refl : (s : List ℕ) → name_eq s s ≡ true
name_eq_refl [] = refl
name_eq_refl (x ∷ s) = ground (arith, name_eq_refl s)

-- The map `byIn`.
abbrev pub Book : Type 0
Book = List (List ℕ × ℕ)

unfoldable pub find : List ℕ → Book → Option ℕ
find name [] = none
find name ((n, h) ∷ b) = if name_eq n name then some h else find name b

module _ (k : Kernel) where
  open k use {World, port_bind}

  abbrev bind_new : Option ℕ → List ℕ → Book → World → Book × World × Option ℕ
  bind_new none name b w = (b, w, none)
  bind_new (some h) name b w = ((name, h) ∷ b, w, some h)

  abbrev bind_found : Option ℕ → List ℕ → Book → World → Book × World × Option ℕ
  bind_found (some h) name b w = (b, w, some h)
  bind_found none name b w = let (w', o) = port_bind name w in bind_new o name b w'

  -- `Bind`: the book, the kernel and the handle; `none` is `ErrBadHandle`.
  unfoldable pub bind : List ℕ → Book → World → Book × World × Option ℕ
  bind name b w = bind_found (find name b) name b w

  bind_new-find :
      (o : Option ℕ) (name : List ℕ) (b : Book) (w : World) (h : ℕ)
      → (bind_new o name b w).2 ≡ some h
      → find name (bind_new o name b w).0 ≡ some h
  unfolding find
  bind_new-find none name b w h e = cc
  bind_new-find (some i) name b w h e = rw (name_eq_refl name) e

  bind_found-find :
      (o : Option ℕ) (name : List ℕ) (b : Book) (w : World) (h : ℕ)
      → find name b ≡ o
      → (bind_found o name b w).2 ≡ some h
      → find name (bind_found o name b w).0 ≡ some h
  bind_found-find (some i) name b w h f e = f ∙ e
  bind_found-find none name b w h f e =
      let (w', o) = port_bind name w in bind_new-find o name b w' h e

  -- Once a name is bound, binding it again returns the same handle and asks the kernel nothing,
  -- whatever has happened to the kernel since.
  pub bind_once :
      (name : List ℕ) (b : Book) (w v : World) (h : ℕ)
      → (bind name b w).2 ≡ some h
      → bind name (bind name b w).0 v ≡ ((bind name b w).0, v, some h)
  unfolding bind
  bind_once name b w v h e =
      let found = bind_found-find (find name b) name b w h refl e in rw found refl

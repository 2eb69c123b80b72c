-- ===== src/Term/Parser/Plain.antt =====
-- Plain text on the terminal: what it leaves alone, and a visit to the alternate screen.
use mkgo.Common.{
  ℕ, zero, suc, ◌+◌, ◌-◌, ◌≡◌, ◌≢◌, refl, sym, ◌∙◌, arith, Bool, true, false, ◌&&◌, ◌||◌, List, [],
  ◌∷◌, length, ltb, leb, ◌==◌, if◌then◌else◌, Option, none, some,
}
use mkgo.Term.Cells.{and_then, copy_over-whole}
use mkgo.Term.Screen.{
  Cell, Terminal, region_fits, with_grid, clear, set_cell, scroll_all, scroll_region, scroll_up,
  marked, new_line, advance, tab_loop, advance_to_tab_stop, backspace, switch_to_alt_screen,
  switch_to_normal_screen,
}
use mkgo.Term.Screen.Sane.{Sane}
use mkgo.Term.Screen.Draws.{switch_to_alt_screen-Sane}
use mkgo.Term.Parser.{put_plain, putc, write_string}
use mkgo.Term.Parser.Sane.{Absent, putc-Good}

-- The parser stands between two sequences.
pub record AtRest (t : Terminal) : Type 0 where
  pub no_esc : t.esc ≡ false
  pub no_csi : t.csi ≡ false
  pub no_osc : t.osc ≡ false

-- What plain text does not touch: the size, the other screen, the parser's state and the region.
pub record Apart (t u : Terminal) : Type 0 where
  pub same_cols : u.cols ≡ t.cols
  pub same_rows : u.rows ≡ t.rows
  pub same_grid : u.alt_grid ≡ t.alt_grid
  pub same_x : u.alt_x ≡ t.alt_x
  pub same_y : u.alt_y ≡ t.alt_y
  pub same_screen : u.alt_screen ≡ t.alt_screen
  pub same_esc : u.esc ≡ t.esc
  pub same_csi : u.csi ≡ t.csi
  pub same_osc : u.osc ≡ t.osc

Apart-trans : (s t u : Terminal) → Apart s t → Apart t u → Apart s u
Apart-trans s t u h k = ground (arith, h, k)

-- A result, if there is one, that stands apart from `t` in no such field.
abbrev Leaves : Terminal → Option Terminal → Type 0
Leaves t none = Unit {0}
Leaves t (some u) = Apart t u

with_grid-Leaves : (t s : Terminal) (o : Option (List Cell)) → Apart t s → Leaves t (with_grid s o)
with_grid-Leaves t s none h = tt
with_grid-Leaves t s (some g) h = ground (arith, h)

marked-Leaves : (t : Terminal) (o : Option Terminal) → Leaves t o → Leaves t (marked o)
marked-Leaves t none h = tt
marked-Leaves t (some u) h = ground (arith, h)

if-Leaves :
    (b : Bool) (t : Terminal) (o p : Option Terminal)
    → Leaves t o
    → Leaves t p
    → Leaves t (if b then o else p)
if-Leaves true t o p h k = h
if-Leaves false t o p h k = k

and_then-Leaves :
    (t : Terminal) (o : Option Terminal) (f : Terminal → Option Terminal)
    → Leaves t o
    → ((s : Terminal) → Apart t s → Leaves t (f s))
    → Leaves t (and_then o f)
and_then-Leaves t none f h k = tt
and_then-Leaves t (some s) f h k = k s h

set_cell-Leaves : (c : ℕ) (t s : Terminal) → Apart t s → Leaves t (set_cell c s)
unfolding set_cell
set_cell-Leaves c t s h = with_grid-Leaves t (record s { dirty = true }) _ (ground (arith, h))

scroll_all-Leaves : (t s : Terminal) → Apart t s → Leaves t (scroll_all s)
unfolding scroll_all
scroll_all-Leaves t s h =
    if-Leaves (ltb (length s.grid) s.cols) t none _ tt
      (with_grid-Leaves t (record s { cur_y = s.rows - 1 }) _ (ground (arith, h)))

scroll_region-Leaves : (t s : Terminal) → Apart t s → Leaves t (scroll_region s)
unfolding scroll_region
scroll_region-Leaves t s h =
    if-Leaves (region_fits s) t _ none
      (with_grid-Leaves t (record s { cur_y = s.scroll_bottom }) _ (ground (arith, h))) tt

scroll_up-Leaves : (t s : Terminal) → Apart t s → Leaves t (scroll_up s)
unfolding scroll_up
scroll_up-Leaves t s h =
    if-Leaves (s.scroll_top == 0 && leb (s.rows - 1) s.scroll_bottom) t _ _
      (scroll_all-Leaves t s h)
      (if-Leaves (leb s.scroll_bottom s.cur_y) t _ (some s) (scroll_region-Leaves t s h) h)

new_line-Leaves : (t s : Terminal) → Apart t s → Leaves t (new_line s)
unfolding new_line
new_line-Leaves t s h =
    if-Leaves (leb s.scroll_bottom s.cur_y) t _ _
      (marked-Leaves t _ (scroll_up-Leaves t (record s { cur_x = 0 }) (ground (arith, h))))
      (ground (arith, h))

advance-Leaves : (t s : Terminal) → Apart t s → Leaves t (advance s)
unfolding advance
advance-Leaves t s h =
    if-Leaves (leb s.cols (s.cur_x + 1)) t _ _
      (if-Leaves s.auto_wrap t _ _ (new_line-Leaves t (record s { cur_x = 0 }) (ground (arith, h)))
        (ground (arith, h)))
      (ground (arith, h))

tab_loop-Leaves : (n : ℕ) (t s : Terminal) → Apart t s → Leaves t (tab_loop n s)
unfolding tab_loop
tab_loop-Leaves zero t s h = h
tab_loop-Leaves (suc n) t s h =
    and_then-Leaves t _ _ (set_cell-Leaves 32 t s h)
      (λ u k. tab_loop-Leaves n t (record u { cur_x = u.cur_x + 1 }) (ground (arith, k)))

put_plain-Leaves : (c : ℕ) (t : Terminal) → c ≢ 27 → Leaves t (put_plain c t)
unfolding put_plain advance_to_tab_stop backspace
put_plain-Leaves c t ne =
    let own : Apart t t = ground arith in
    let printed : c == 27 ≡ false = ground arith in
    rw printed (
      if-Leaves (c == 10) t _ _ (new_line-Leaves t t own) (
        if-Leaves (c == 13) t _ _ (ground arith) (
          if-Leaves (c == 9) t _ _
            (and_then-Leaves t _ _ (tab_loop-Leaves _ t t own) (λ s k. ground (arith, k)))
            (if-Leaves (c == 8 || c == 127) t _ _
              (if-Leaves (ltb 0 t.cur_x) t _ _
                (set_cell-Leaves 32 t (record t { cur_x = t.cur_x - 1 }) (ground arith)) own)
              (if-Leaves (leb 32 c) t _ _
                (and_then-Leaves t _ _ (set_cell-Leaves c t t own) (advance-Leaves t)) own)))))

-- The field of one record, in the words of another.
Leaves-Apart : (t u : Terminal) (o : Option Terminal) → o ≡ some u → Leaves t o → Apart t u
Leaves-Apart t u none e h = absurd (cc)
Leaves-Apart t u (some v) e h = ground (arith, h)

pub at_rest : (c : ℕ) (t : Terminal) → AtRest t → putc c t ≡ put_plain c t
unfolding putc
at_rest c t h = ground (arith, h)

stays-AtRest : (t u : Terminal) → AtRest t → Apart t u → AtRest u
stays-AtRest t u h k = ground (arith, h, k)

-- Text without an escape byte, on a terminal in good order whose parser is at rest: nothing panics,
-- the terminal stays in good order, and the size, the other screen and the parser are as before.
pub write_string-plain :
    (s : List ℕ) (t : Terminal)
    → Sane t
    → AtRest t
    → Absent 27 s
    → (u : Terminal) × (write_string s t ≡ some u) × Sane u × Apart t u
unfolding write_string
write_string-plain [] t h r a = (t, refl, h, ground arith)
write_string-plain (c ∷ s) t h r (ne, a) =
    let (u, e, k) = putc-Good c t h (λ on private. cc (r.no_csi)) in
    let near =
      Leaves-Apart t u (put_plain c t) ((rw⁻¹ (at_rest c t r) e)) (put_plain-Leaves c t ne) in
    let (v, e', k', far) = write_string-plain s u k (stays-AtRest t u r near) a in
    (v, rw e e', k', Apart-trans t u v near far)

-- The alternate screen holds `g` and the cursor `x`, `y` for the normal one.
record Visits (g : List Cell) (x y : ℕ) (t : Terminal) : Type 0 where
  on : t.alt_screen ≡ true
  kept : t.alt_grid ≡ g
  kept_x : t.alt_x ≡ x
  kept_y : t.alt_y ≡ y

enters :
    (t : Terminal)
    → Sane t
    → t.alt_screen ≡ false
    → Visits t.grid t.cur_x t.cur_y (switch_to_alt_screen t)
unfolding switch_to_alt_screen clear
enters t h off =
    let whole = copy_over-whole t.alt_grid t.grid (h.alt_area ∙ sym h.area) in
    ground (arith, off, whole)

enters-AtRest : (t : Terminal) → AtRest t → AtRest (switch_to_alt_screen t)
unfolding switch_to_alt_screen clear
enters-AtRest t r = ground (arith, r)

stays : (g : List Cell) (x y : ℕ) (t u : Terminal) → Visits g x y t → Apart t u → Visits g x y u
stays g x y t u h k = ground (arith, h, k)

-- The normal screen is back.
abbrev pub Restored : Terminal → Terminal → Type 0
Restored t u =
    (u.grid ≡ t.grid) × (u.cur_x ≡ t.cur_x) × (u.cur_y ≡ t.cur_y) × (u.alt_screen ≡ false)

leaves :
    (t u : Terminal)
    → Sane u
    → Visits t.grid t.cur_x t.cur_y u
    → Restored t (switch_to_normal_screen u)
unfolding switch_to_normal_screen
leaves t u h k =
    let whole = copy_over-whole u.grid u.alt_grid (h.area ∙ sym h.alt_area) in
    (ground (arith, k, whole), ground (arith, k), ground (arith, k), ground (arith, k))

-- A full-screen program switches to the alternate screen, writes text without an escape byte and
-- switches back, on a terminal in good order that shows its normal screen and whose parser is at
-- rest: nothing panics, and every cell and the cursor are as it found them.
pub switch_to_normal_screen-switch_to_alt_screen :
    (s : List ℕ) (t : Terminal)
    → Sane t
    → AtRest t
    → t.alt_screen ≡ false
    → Absent 27 s
    → (u : Terminal) × (write_string s (switch_to_alt_screen t) ≡ some u)
      × Restored t (switch_to_normal_screen u)
switch_to_normal_screen-switch_to_alt_screen s t h r off a =
    let v = switch_to_alt_screen t in
    let (u, e, k, far) =
      write_string-plain s v (switch_to_alt_screen-Sane t h) (enters-AtRest t r) a in
    (u, e, leaves t u k (stays t.grid t.cur_x t.cur_y v u (enters t h off) far))

-- ===== src/Term/Screen/Sane.antt =====
-- The invariant of a terminal, kept by everything that draws on it.
use mkgo.Common.{
  ℕ, ◌+◌, ◌-◌, ◌*◌, ◌≤◌, ◌<◌, ◌≡◌, refl, arith, true, false, ◌&&◌, List, length, drop, ltb, leb,
  ◌==◌, Option, none, some, Bool-cases, inl, inr,
}
use mkgo.Term.Cells.{
  copy_over, copy_from, length-make_list, length-copy_over, length-copy_from, set_at-Keeps,
  fill-Keeps,
}
use mkgo.Term.Screen.{
  Cell, Terminal, blank, with_grid, clear, set_cell, scroll_all, scroll_region, region_fits,
  region_tail, scroll_up, marked, new_line,
}

-- The grids have one cell for each place, the cursors stand inside, the scrolling region is inside
-- the screen, and the colours are in the palette's range.
pub record Sane (t : Terminal) : Type 0 where
  pub wide : 1 ≤ t.cols
  pub tall : 1 ≤ t.rows
  pub area : length t.grid ≡ t.rows * t.cols
  pub alt_area : length t.alt_grid ≡ t.rows * t.cols
  pub in_x : t.cur_x < t.cols
  pub in_y : t.cur_y < t.rows
  pub alt_in_x : t.alt_x < t.cols
  pub alt_in_y : t.alt_y < t.rows
  pub region : t.scroll_top ≤ t.scroll_bottom
  pub bottom : t.scroll_bottom < t.rows
  pub fg_range : t.fg < 16
  pub bg_range : t.bg < 8

-- No panic, and the invariant.
abbrev pub Good : Option Terminal → Type 0
Good o = (t : Terminal) × (o ≡ some t) × Sane t

-- Row `y` stands inside the grid.
pub row_fits : (y rows cols : ℕ) → y < rows → y * cols + cols ≤ rows * cols
row_fits y rows cols h = grind arith

pub place_fits : (x y rows cols : ℕ) → x < cols → y < rows → y * cols + x < rows * cols
place_fits x y rows cols hx hy = omega (arith, row_fits y rows cols hy)

-- Another grid of the same size.
pub with_grid-Good :
    (t : Terminal) (l : List Cell) (o : Option (List Cell))
    → Sane t
    → length l ≡ length t.grid
    → (m : List Cell) × (o ≡ some m) × (length m ≡ length l)
    → Good (with_grid t o)
with_grid-Good t l o h e (m, p, k) = (record t { grid = m }, rw p refl, ground (arith, h, k, e))

pub clear-Sane : (t : Terminal) → Sane t → Sane (clear t)
unfolding clear
clear-Sane t h = let k = length-make_list (length t.grid) (blank t) in ground (arith, h, k)

pub set_cell-Good : (ch : ℕ) (t : Terminal) → Sane t → Good (set_cell ch t)
unfolding set_cell
set_cell-Good ch t h =
    with_grid-Good (record t { dirty = true }) t.grid _ (ground (arith, h)) refl
      (set_at-Keeps (t.cur_y * t.cols + t.cur_x) _ t.grid
        (omega (arith, h.area, place_fits t.cur_x t.cur_y t.rows t.cols h.in_x h.in_y)))

scroll_all-Good : (t : Terminal) → Sane t → Good (scroll_all t)
unfolding scroll_all
scroll_all-Good t h =
    let k = length-copy_over t.grid (drop t.cols t.grid) in
    let last = row_fits (t.rows - 1) t.rows t.cols (omega (arith, h.tall)) in
    let first = row_fits 0 t.rows t.cols (omega (arith, h.tall)) in
    let fits : ltb (length t.grid) t.cols ≡ false = ground (arith, h.area, first) in
    rw fits (
      with_grid-Good (record t { cur_y = t.rows - 1 }) (copy_over t.grid (drop t.cols t.grid)) _
        (ground (arith, h)) k
        (fill-Keeps t.cols ((t.rows - 1) * t.cols) (blank t) _ (omega (arith, h.area, k, last))))

region_rows : (top bottom cols : ℕ) → top ≤ bottom → (top + 1) * cols ≤ (bottom + 1) * cols
region_rows top bottom cols h = grind arith

scroll_region-Good : (t : Terminal) → Sane t → Good (scroll_region t)
unfolding scroll_region
scroll_region-Good t h =
    let k = length-copy_from (t.scroll_top * t.cols) (region_tail t) t.grid in
    let last = row_fits t.scroll_bottom t.rows t.cols h.bottom in
    let first = row_fits t.scroll_top t.rows t.cols (omega (arith, h.region, h.bottom)) in
    let more = region_rows t.scroll_top t.scroll_bottom t.cols h.region in
    let fits : region_fits t ≡ true = ground (arith, h.area, last, first, more) in
    rw fits (
      with_grid-Good (record t { cur_y = t.scroll_bottom })
        (copy_from (t.scroll_top * t.cols) (region_tail t) t.grid) _ (ground (arith, h)) k
        (fill-Keeps t.cols (t.scroll_bottom * t.cols) (blank t) _ (omega (arith, h.area, k, last))))

scroll_up-Good : (t : Terminal) → Sane t → Good (scroll_up t)
unfolding scroll_up
scroll_up-Good t h = elim (Bool-cases (t.scroll_top == 0 && leb (t.rows - 1) t.scroll_bottom)) [
  | inl all ↦ rw all (scroll_all-Good t h)
  | inr part ↦ rw part (elim (Bool-cases (leb t.scroll_bottom t.cur_y)) [
    | inl low ↦ rw low (scroll_region-Good t h)
    | inr high ↦ rw high (t, refl, h)
  ])
]

marked-Good : (o : Option Terminal) → Good o → Good (marked o)
marked-Good none (t, e, h) = cc
marked-Good (some s) (t, e, h) = (record t { dirty = true }, cc, ground (arith, h))

pub new_line-Good : (t : Terminal) → Sane t → Good (new_line t)
unfolding new_line
new_line-Good t h = elim (Bool-cases (leb t.scroll_bottom t.cur_y)) [
  | inl low ↦ rw low (marked-Good _ (scroll_up-Good (record t { cur_x = 0 }) (ground (arith, h))))
  | inr high ↦ rw high (_, refl, ground (arith, h, high))
]

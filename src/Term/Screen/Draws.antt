-- ===== src/Term/Screen/Draws.antt =====
-- The invariant through printing, tabs, erasing and the alternate screen.
use mkgo.Common.{
  ℕ, zero, suc, ◌+◌, ◌-◌, ◌*◌, ◌/◌, ◌≤◌, ◌<◌, ◌≡◌, refl, arith, true, false, List, length, ltb, leb,
  ◌==◌, if◌then◌else◌, min, some, Bool-cases, inl, inr,
}
use mkgo.Term.Cells.{fill, length-make_list, length-copy_over, set_at-Keeps, fill-Keeps, Keeps}
use mkgo.Term.Screen.{
  Cell, Terminal, blank, clear, set_cell, advance, tab_loop, back_in, advance_to_tab_stop,
  backspace, switch_to_alt_screen, switch_to_normal_screen,
}
use mkgo.Term.Erase.{
  erase_rows, erased_display, erase_display, erase_line, erase_count, erase_chars,
}
use mkgo.Term.Screen.Sane.{
  Sane, Good, row_fits, place_fits, with_grid-Good, set_cell-Good, new_line-Good,
}

pub advance-Good : (t : Terminal) → Sane t → Good (advance t)
unfolding advance
advance-Good t h = elim (Bool-cases (leb t.cols (t.cur_x + 1))) [
  | inl edge ↦ rw edge (elim (Bool-cases t.auto_wrap) [
    | inl wraps ↦
        rw wraps (new_line-Good (record t { auto_wrap = true; cur_x = 0 }) (ground (arith, h)))
    | inr stays ↦ rw stays (_, refl, ground (arith, h))
  ])
  | inr inside ↦ rw inside (_, refl, ground (arith, h, inside))
]

-- Printing changes the grid and the mark alone.
pub set_cell-grid :
    (ch : ℕ) (t : Terminal)
    → Sane t
    → (m : List Cell) × (set_cell ch t ≡ some (record t { dirty = true; grid = m }))
      × (length m ≡ length t.grid)
unfolding set_cell
set_cell-grid ch t h =
    let (m, e, k) =
      set_at-Keeps (t.cur_y * t.cols + t.cur_x) (record { ch = ch; fg = t.fg; bg = t.bg }) t.grid
        (omega (arith, h.area, place_fits t.cur_x t.cur_y t.rows t.cols h.in_x h.in_y)) in
    (m, rw e refl, k)

-- The cursor may stand behind the last column.
abbrev Near : Terminal → Type 0
Near t = Sane (record t { cur_x = 0 })

inside : (t : Terminal) → Near t → t.cur_x < t.cols → Sane t
inside t h x = ground (arith, h, x)

tab_loop-Near :
    (n : ℕ) (t : Terminal)
    → Near t
    → t.cur_x + n ≤ t.cols
    → (s : Terminal) × (tab_loop n t ≡ some s) × Near s × (s.cur_x ≤ s.cols)
unfolding tab_loop
tab_loop-Near zero t h x = (t, refl, h, omega arith)
tab_loop-Near (suc n) t h x =
    let (m, e, k) = set_cell-grid 32 t (inside t h (omega arith)) in
    let s = record t { dirty = true; grid = m; cur_x = t.cur_x + 1 } in
    let (s', e', h', x') = tab_loop-Near n s (ground (arith, h, k)) (omega arith) in
    (s', rw e e', h', x')

back_in-Sane : (t : Terminal) → Near t → t.cur_x ≤ t.cols → Sane (back_in t)
back_in-Sane t h x = elim (Bool-cases (leb t.cols t.cur_x)) [
  | inl out ↦ rw out (ground (arith, h))
  | inr within ↦ rw within (ground (arith, h, within))
]

tab_room : (x cols : ℕ) → x < cols → x + (min ((x / 8 + 1) * 8) cols - x) ≤ cols
tab_room x cols h = ground arith

pub advance_to_tab_stop-Good : (t : Terminal) → Sane t → Good (advance_to_tab_stop t)
unfolding advance_to_tab_stop
advance_to_tab_stop-Good t h =
    let (s, e, near, x) =
      tab_loop-Near (min ((t.cur_x / 8 + 1) * 8) t.cols - t.cur_x) t (ground (arith, h))
        (tab_room t.cur_x t.cols h.in_x) in
    (back_in s, rw e refl, back_in-Sane s near x)

pub backspace-Good : (t : Terminal) → Sane t → Good (backspace t)
unfolding backspace
backspace-Good t h = elim (Bool-cases (ltb 0 t.cur_x)) [
  | inl some_ ↦ rw some_ (set_cell-Good 32 (record t { cur_x = t.cur_x - 1 }) (ground (arith, h)))
  | inr left ↦ rw left (t, refl, h)
]

erase_rows-Keeps :
    (n y start : ℕ) (t : Terminal) (g : List Cell)
    → length g ≡ t.rows * t.cols
    → y + n ≤ t.rows
    → start ≤ t.cols
    → Keeps g (erase_rows n y start t g)
unfolding erase_rows
erase_rows-Keeps zero y start t g a hy hs = (g, refl, refl)
erase_rows-Keeps (suc n) y start t g a hy hs =
    let (m, e, k) =
      fill-Keeps (t.cols - start) (y * t.cols + start) (blank t) g
        (omega (arith, row_fits y t.rows t.cols (omega arith))) in
    let (m', e', k') = erase_rows-Keeps n (y + 1) 0 t m (omega arith) (omega arith) (omega arith) in
    (m', rw e e', omega arith)

erased_display-Keeps : (n : ℕ) (t : Terminal) → Sane t → Keeps t.grid (erased_display n t)
unfolding erased_display
erased_display-Keeps n t h = elim (Bool-cases (n == 0)) [
  | inl below ↦ rw below (
      erase_rows-Keeps (t.rows - t.cur_y) t.cur_y t.cur_x t t.grid h.area (omega (arith, h.in_y))
        (omega (arith, h.in_x)))
  | inr other ↦ rw other (elim (Bool-cases (n == 1)) [
    | inl above ↦ rw above (
        let (g, e, k) =
          erase_rows-Keeps t.cur_y 0 0 t t.grid h.area (omega (arith, h.in_y)) (omega arith) in
        let (g', e', k') =
          erase_rows-Keeps 1 t.cur_y t.cur_x t g (omega (arith, h.area)) (omega (arith, h.in_y))
            (omega (arith, h.in_x)) in
        rw e (g', e', omega arith))
    | inr rest ↦ rw rest (elim (Bool-cases (n == 2)) [
      | inl whole ↦ rw whole (_, refl, length-make_list (length t.grid) (blank t))
      | inr nothing ↦ rw nothing (t.grid, refl, refl)
    ])
  ])
]

pub erase_display-Good : (n : ℕ) (t : Terminal) → Sane t → Good (erase_display n t)
unfolding erase_display
erase_display-Good n t h =
    with_grid-Good (record t { cur_x = 0; cur_y = 0; dirty = true }) t.grid _ (ground (arith, h))
      refl (erased_display-Keeps n t h)

line_room : (x cols : ℕ) → x < cols → min (x + 1) cols ≤ cols
line_room x cols h = ground arith

pub erase_line-Good : (n : ℕ) (t : Terminal) → Sane t → Good (erase_line n t)
unfolding erase_line
erase_line-Good n t h =
    let row = row_fits t.cur_y t.rows t.cols h.in_y in
    let kept : Keeps t.grid (
        if n == 0
        then fill (t.cols - t.cur_x) (t.cur_y * t.cols + t.cur_x) (blank t) t.grid
        else if n == 1
        then fill (min (t.cur_x + 1) t.cols) (t.cur_y * t.cols) (blank t) t.grid
        else if n == 2
        then fill t.cols (t.cur_y * t.cols) (blank t) t.grid
        else some t.grid) =
      elim (Bool-cases (n == 0)) [
        | inl a ↦
            rw a (
              fill-Keeps (t.cols - t.cur_x) _ (blank t) t.grid (omega (arith, h.area, row, h.in_x)))
        | inr a ↦ rw a (elim (Bool-cases (n == 1)) [
          | inl b ↦ rw b (
              fill-Keeps (min (t.cur_x + 1) t.cols) _ (blank t) t.grid
                (omega (arith, h.area, row, line_room t.cur_x t.cols h.in_x)))
          | inr b ↦ rw b (elim (Bool-cases (n == 2)) [
            | inl c ↦ rw c (fill-Keeps t.cols _ (blank t) t.grid (omega (arith, h.area, row)))
            | inr c ↦ rw c (t.grid, refl, refl)
          ])
        ])
      ] in
    with_grid-Good (record t { dirty = true }) t.grid _ (ground (arith, h)) refl kept

erase_room : (n : ℕ) (t : Terminal) → t.cur_x < t.cols → t.cur_x + erase_count n t ≤ t.cols
erase_room n t h = ground arith

pub erase_chars-Good : (n : ℕ) (t : Terminal) → Sane t → Good (erase_chars n t)
unfolding erase_chars
erase_chars-Good n t h =
    let row = row_fits t.cur_y t.rows t.cols h.in_y in
    let room = erase_room (if n == 0 then 1 else n) t h.in_x in
    let here : leb t.cols t.cur_x ≡ false = ground (arith, h.in_x) in
    rw here (
      with_grid-Good (record t { dirty = true }) t.grid _ (ground (arith, h)) refl
        (fill-Keeps (erase_count (if n == 0 then 1 else n) t) (t.cur_y * t.cols + t.cur_x) (blank t)
          t.grid (omega (arith, h.area, row, room))))

pub switch_to_alt_screen-Sane : (t : Terminal) → Sane t → Sane (switch_to_alt_screen t)
unfolding switch_to_alt_screen clear
switch_to_alt_screen-Sane t h =
    let k = length-make_list (length t.grid) (blank t) in
    let k' = length-copy_over t.alt_grid t.grid in
    elim (Bool-cases t.alt_screen) [
      | inl on ↦ rw on (ground (arith, h))
      | inr off ↦ rw off (ground (arith, h, k, k'))
    ]

pub switch_to_normal_screen-Sane : (t : Terminal) → Sane t → Sane (switch_to_normal_screen t)
unfolding switch_to_normal_screen
switch_to_normal_screen-Sane t h =
    let k = length-copy_over t.grid t.alt_grid in
    elim (Bool-cases t.alt_screen) [
      | inl on ↦ rw on (ground (arith, h, k))
      | inr off ↦ rw off (ground (arith, h))
    ]

-- ===== src/Term/Erase.antt =====
-- services/display/terminal/term.go: erasing parts of the grid.
-- An index out of range is a panic, `none`.
use mkgo.Common.{
  ℕ, zero, suc, ◌+◌, ◌-◌, ◌*◌, true, List, length, ltb, leb, ◌==◌, if◌then◌else◌, min, Option, some,
}
use mkgo.Term.Cells.{and_then, fill, make_list}
use mkgo.Term.Screen.{Cell, Terminal, blank, with_grid}

-- `n` rows from row `y` on; the first is wiped from column `start`, the others whole.
unfoldable pub erase_rows : ℕ → ℕ → ℕ → Terminal → List Cell → Option (List Cell)
erase_rows zero y start t g = some g
erase_rows (suc n) y start t g =
    and_then (fill (t.cols - start) (y * t.cols + start) (blank t) g)
      (λ h. erase_rows n (y + 1) 0 t h)

-- The grid after `eraseDisplay`; mode 1 wipes the cursor's row from the cursor on.
unfoldable pub erased_display : ℕ → Terminal → Option (List Cell)
erased_display n t =
    if n == 0
    then erase_rows (t.rows - t.cur_y) t.cur_y t.cur_x t t.grid
    else if n == 1
    then and_then (erase_rows t.cur_y 0 0 t t.grid) (λ g. erase_rows 1 t.cur_y t.cur_x t g)
    else if n == 2
    then some (make_list (length t.grid) (blank t))
    else some t.grid

unfoldable pub erase_display : ℕ → Terminal → Option Terminal
unfolding erased_display
erase_display n t = with_grid (record t { cur_x = 0; cur_y = 0; dirty = true }) (erased_display n t)

unfoldable pub erase_line : ℕ → Terminal → Option Terminal
erase_line n t =
    let row = t.cur_y * t.cols in
    with_grid (record t { dirty = true })
      (if n == 0
        then fill (t.cols - t.cur_x) (row + t.cur_x) (blank t) t.grid
        else if n == 1
        then fill (min (t.cur_x + 1) t.cols) row (blank t) t.grid
        else if n == 2
        then fill t.cols row (blank t) t.grid
        else some t.grid)

-- The end of `eraseChars`: `curX + n` that is past the largest `int` is negative.
abbrev pub erase_count : ℕ → Terminal → ℕ
erase_count n t =
    if ltb 9223372036854775807 (t.cur_x + n) then 0 else min (t.cur_x + n) t.cols - t.cur_x

unfoldable pub erase_chars : ℕ → Terminal → Option Terminal
erase_chars n t =
    if leb t.cols t.cur_x
    then some t
    else with_grid (record t { dirty = true })
        (fill (erase_count (if n == 0 then 1 else n) t) (t.cur_y * t.cols + t.cur_x) (blank t)
          t.grid)

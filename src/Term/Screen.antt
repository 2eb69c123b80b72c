-- ===== src/Term/Screen.antt =====
-- The cell grid of `Terminal` in services/display/terminal/term.go: its state and what draws on it.
-- An index out of range is a panic, `none`.
pub mod Sane
pub mod Draws
use mkgo.Common.{
  ℕ, zero, suc, ◌+◌, ◌-◌, ◌*◌, ◌/◌, Bool, true, false, ◌&&◌, ◌||◌, not, List, [], ◌∷◌, length, ltb,
  leb, ◌==◌, if◌then◌else◌, min, drop, take, Option, none, some,
}
use mkgo.Term.Cells.{and_then, set_at, fill, copy_over, copy_from, make_list}

pub record Cell : Type 0 where
  pub ch : ℕ
  pub fg : ℕ
  pub bg : ℕ

-- `Terminal` without its window and its blinking cursor's timer.
pub record Terminal : Type 0 where
  pub cols : ℕ
  pub rows : ℕ
  pub grid : List Cell
  pub cur_x : ℕ
  pub cur_y : ℕ
  pub fg : ℕ
  pub bg : ℕ
  pub dirty : Bool
  pub esc : Bool
  pub csi : Bool
  pub dec_pm : Bool
  pub csi_buf : List ℕ
  pub osc : Bool
  pub osc_buf : List ℕ
  pub cursor_visible : Bool
  pub cursor_blink : Bool
  pub cursor_on : Bool
  pub cursor_ticker : ℕ
  pub saved_x : ℕ
  pub saved_y : ℕ
  pub alt_screen : Bool
  pub alt_grid : List Cell
  pub alt_x : ℕ
  pub alt_y : ℕ
  pub scroll_top : ℕ
  pub scroll_bottom : ℕ
  pub bracketed_paste : Bool
  pub focus_reporting : Bool
  pub mouse_mode : ℕ
  pub auto_wrap : Bool
  pub app_cursor_keys : Bool
  pub title : List ℕ

abbrev pub blank : Terminal → Cell
blank t = record { ch = 32; fg = t.fg; bg = t.bg }

-- The drawing operations after the first access: the grid, if none has panicked.
abbrev pub with_grid : Terminal → Option (List Cell) → Option Terminal
with_grid t none = none
with_grid t (some g) = some (record t { grid = g })

-- `Clear`.
unfoldable pub clear : Terminal → Terminal
clear t = record t {
  grid = make_list (length t.grid) (blank t);
  cur_x = 0;
  cur_y = 0;
  dirty = true;
}

unfoldable pub set_cell : ℕ → Terminal → Option Terminal
set_cell ch t =
    with_grid (record t { dirty = true })
      (set_at (t.cur_y * t.cols + t.cur_x) (record { ch = ch; fg = t.fg; bg = t.bg }) t.grid)

-- One half of `clampPos`, on a coordinate that is not negative.
abbrev pub clamp : ℕ → ℕ → ℕ
clamp limit v = if leb limit v then limit - 1 else v

unfoldable pub clamp_pos : Terminal → Terminal
clamp_pos t = record t { cur_x = clamp t.cols t.cur_x; cur_y = clamp t.rows t.cur_y }

-- `v + n` of two `int`s, clamped: past the largest `int` the sum is negative and clamps to 0.
abbrev pub add_clamped : ℕ → ℕ → ℕ → ℕ
add_clamped limit v n = if ltb 9223372036854775807 (v + n) then 0 else clamp limit (v + n)

-- `moveCursor` in the four directions, by `n` cells; a negative coordinate clamps to 0.
unfoldable pub move_up : ℕ → Terminal → Terminal
move_up n t = record t { cur_x = clamp t.cols t.cur_x; cur_y = clamp t.rows (t.cur_y - n) }

unfoldable pub move_down : ℕ → Terminal → Terminal
move_down n t = record t { cur_x = clamp t.cols t.cur_x; cur_y = add_clamped t.rows t.cur_y n }

unfoldable pub move_right : ℕ → Terminal → Terminal
move_right n t = record t { cur_x = add_clamped t.cols t.cur_x n; cur_y = clamp t.rows t.cur_y }

unfoldable pub move_left : ℕ → Terminal → Terminal
move_left n t = record t { cur_x = clamp t.cols (t.cur_x - n); cur_y = clamp t.rows t.cur_y }

-- `case 'H'`, with the parameters counted from 1.
unfoldable pub move_to : ℕ → ℕ → Terminal → Terminal
unfolding clamp_pos
move_to y x t = clamp_pos (record t { cur_x = x - 1; cur_y = y - 1 })

unfoldable pub save_cursor : Terminal → Terminal
save_cursor t = record t { saved_x = t.cur_x; saved_y = t.cur_y }

unfoldable pub restore_cursor : Terminal → Terminal
unfolding clamp_pos
restore_cursor t = clamp_pos (record t { cur_x = t.saved_x; cur_y = t.saved_y })

-- `case 'r'`.
unfoldable pub set_region : ℕ → ℕ → Terminal → Terminal
set_region top bottom t =
    let top' = if top == 0 then 1 else top in
    let bottom' = if bottom == 0 then t.rows else bottom in
    if ltb bottom' top'
    then record t { scroll_top = 0; scroll_bottom = t.rows - 1 }
    else record t { scroll_top = top' - 1; scroll_bottom = bottom' - 1 }

-- `scrollUp` of the whole screen: `copy(t.grid, t.grid[t.cols:])`, and the last row is wiped.
unfoldable pub scroll_all : Terminal → Option Terminal
scroll_all t =
    if ltb (length t.grid) t.cols
    then none
    else with_grid (record t { cur_y = t.rows - 1 })
        (fill t.cols ((t.rows - 1) * t.cols) (blank t) (copy_over t.grid (drop t.cols t.grid)))

-- The slices of the region's rows are in range.
abbrev pub region_fits : Terminal → Bool
region_fits t =
    leb (t.scroll_top * t.cols) (length t.grid)
    && leb ((t.scroll_bottom + 1) * t.cols) (length t.grid)
    && leb ((t.scroll_top + 1) * t.cols) ((t.scroll_bottom + 1) * t.cols)

-- The rows of the region below its first one.
abbrev pub region_tail : Terminal → List Cell
region_tail t =
    take ((t.scroll_bottom + 1) * t.cols - (t.scroll_top + 1) * t.cols)
      (drop ((t.scroll_top + 1) * t.cols) t.grid)

-- `scrollUp` of the region alone.
unfoldable pub scroll_region : Terminal → Option Terminal
scroll_region t =
    if region_fits t
    then with_grid (record t { cur_y = t.scroll_bottom })
        (fill t.cols (t.scroll_bottom * t.cols) (blank t)
          (copy_from (t.scroll_top * t.cols) (region_tail t) t.grid))
    else none

unfoldable pub scroll_up : Terminal → Option Terminal
unfolding scroll_all scroll_region
scroll_up t =
    if t.scroll_top == 0 && leb (t.rows - 1) t.scroll_bottom
    then scroll_all t
    else if leb t.scroll_bottom t.cur_y
    then scroll_region t
    else some t

abbrev pub marked : Option Terminal → Option Terminal
marked none = none
marked (some t) = some (record t { dirty = true })

unfoldable pub new_line : Terminal → Option Terminal
new_line t =
    if leb t.scroll_bottom t.cur_y
    then marked (scroll_up (record t { cur_x = 0 }))
    else some (record t { cur_x = 0; cur_y = t.cur_y + 1; dirty = true })

unfoldable pub advance : Terminal → Option Terminal
advance t =
    if leb t.cols (t.cur_x + 1)
    then if t.auto_wrap
      then new_line (record t { cur_x = 0 })
      else some (record t { cur_x = t.cols - 1 })
    else some (record t { cur_x = t.cur_x + 1 })

-- `n` rounds of the loop of `advanceToTabStop`.
unfoldable pub tab_loop : ℕ → Terminal → Option Terminal
tab_loop zero t = some t
tab_loop (suc n) t = and_then (set_cell 32 t) (λ s. tab_loop n (record s { cur_x = s.cur_x + 1 }))

abbrev pub back_in : Terminal → Terminal
back_in t = if leb t.cols t.cur_x then record t { cur_x = t.cols - 1 } else t

unfoldable pub advance_to_tab_stop : Terminal → Option Terminal
advance_to_tab_stop t =
    let next = (t.cur_x / 8 + 1) * 8 in
    and_then (tab_loop (min next t.cols - t.cur_x) t) (λ s. some (back_in s))

unfoldable pub backspace : Terminal → Option Terminal
backspace t = if ltb 0 t.cur_x then set_cell 32 (record t { cur_x = t.cur_x - 1 }) else some t

-- `switchToAltScreen` and `switchToNormalScreen`.
unfoldable pub switch_to_alt_screen : Terminal → Terminal
unfolding clear
switch_to_alt_screen t =
    if t.alt_screen
    then t
    else record (clear (record t {
      alt_screen = true;
      alt_grid = copy_over t.alt_grid t.grid;
      alt_x = t.cur_x;
      alt_y = t.cur_y;
    })) { scroll_top = 0; scroll_bottom = t.rows - 1 }

unfoldable pub switch_to_normal_screen : Terminal → Terminal
switch_to_normal_screen t =
    if t.alt_screen
    then record t {
      alt_screen = false;
      grid = copy_over t.grid t.alt_grid;
      cur_x = t.alt_x;
      cur_y = t.alt_y;
      scroll_top = 0;
      scroll_bottom = t.rows - 1;
      dirty = true;
    }
    else t

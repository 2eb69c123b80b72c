-- ===== src/Term/Parser/Region.antt =====
-- A scrolling region that reaches below the last row.
use mkgo.Common.{
  ℕ, zero, suc, ◌+◌, ◌-◌, ◌*◌, ◌≤◌, ◌<◌, ◌≡◌, ◌≢◌, refl, sym, ap, ◌∙◌, arith, true, false, List, [],
  ◌∷◌, ◌++◌, length, none, some,
}
use mkgo.Term.Cells.{set_at-none}
use mkgo.Term.Number.{param, split, atoi, atoi_loop}
use mkgo.Term.Screen.{Terminal, set_cell, new_line, set_region}
use mkgo.Term.Screen.Sane.{Sane}
use mkgo.Term.Control.{csi_final}
use mkgo.Term.Parser.{put_plain, put_esc, put_csi, finish_csi, collect, putc, write_string}
use mkgo.Term.Parser.Plain.{AtRest, at_rest}

-- The text ESC [ ; 9 9 9 r.
abbrev pub region_999 : List ℕ
region_999 = 27 ∷ b'[' ∷ b';' ∷ b'9' ∷ b'9' ∷ b'9' ∷ b'r' ∷ []

-- `n` line feeds and a printed byte.
abbrev pub feeds_and : ℕ → ℕ → List ℕ
feeds_and zero c = c ∷ []
feeds_and (suc n) c = 10 ∷ feeds_and n c

-- The terminal with a region of 999 rows.
abbrev stretched : Terminal → Terminal
stretched t = record t {
  esc = false;
  csi = false;
  dec_pm = false;
  csi_buf = b';' ∷ b'9' ∷ b'9' ∷ b'9' ∷ [];
  osc = false;
  scroll_top = 0;
  scroll_bottom = 998;
}

rested : Terminal → Terminal
rested t = record t { esc = false; csi = false; osc = false }

rested-eq : (t : Terminal) → AtRest t → rested t ≡ t
unfolding rested
rested-eq t r = ground (arith, r)

write_string-region :
    (s : List ℕ) (t : Terminal)
    → write_string (region_999 ++ s) (rested t) ≡ write_string s (stretched t)
unfolding write_string putc put_plain put_esc put_csi collect finish_csi csi_final set_region param
    split atoi atoi_loop rested
write_string-region s t = refl

prints_nowhere :
    (c : ℕ) (t : Terminal)
    → t.cur_y + 0 ≡ t.rows
    → length t.grid ≡ t.rows * t.cols
    → 32 ≤ c
    → c ≢ 127
    → put_plain c t ≡ none
unfolding put_plain set_cell
prints_nowhere c t y a h ne =
    let same : t.cur_y ≡ t.rows = omega arith in
    let out =
      set_at-none (t.cur_y * t.cols + t.cur_x) (record { ch = c; fg = t.fg; bg = t.bg }) t.grid
        (omega (arith, a, ap (λ (y : ℕ). y * t.cols) same)) in
    ground (arith, out)

steps_down :
    (t : Terminal)
    → t.cur_y < t.scroll_bottom
    → put_plain 10 t ≡ some (record t { cur_x = 0; cur_y = t.cur_y + 1; dirty = true })
unfolding put_plain new_line
steps_down t h = ground arith

-- Below its last row the terminal has no cell to print to.
feeds_fall :
    (n c : ℕ) (t : Terminal)
    → AtRest t
    → t.cur_y + n ≡ t.rows
    → t.rows ≤ t.scroll_bottom
    → length t.grid ≡ t.rows * t.cols
    → 32 ≤ c
    → c ≢ 127
    → write_string (feeds_and n c) t ≡ none
unfolding write_string
feeds_fall zero c t r y b a h ne = rw (at_rest c t r ∙ prints_nowhere c t y a h ne) refl
feeds_fall (suc n) c t r y b a h ne = rw (at_rest 10 t r ∙ steps_down t (omega arith)) (
    feeds_fall n c (record t { cur_x = 0; cur_y = t.cur_y + 1; dirty = true }) (ground (arith, r))
      (omega arith) b a h ne)

-- A scrolling region may reach below the last row: on a terminal in good order with fewer than 999
-- rows, whose parser is at rest, the text ESC [ ; 9 9 9 r, then a line feed for each row from the
-- cursor down, then any byte that prints, ends in an index out of range.
pub write_string-panics :
    (c : ℕ) (t : Terminal)
    → Sane t
    → AtRest t
    → t.rows ≤ 998
    → 32 ≤ c
    → c ≢ 127
    → write_string (region_999 ++ feeds_and (t.rows - t.cur_y) c) t ≡ none
write_string-panics c t h r small printed ne =
    ap (write_string (region_999 ++ feeds_and (t.rows - t.cur_y) c)) (sym (rested-eq t r))
    ∙ write_string-region (feeds_and (t.rows - t.cur_y) c) t
    ∙ feeds_fall (t.rows - t.cur_y) c (stretched t) (ground arith) (omega (arith, h.in_y)) small
        h.area printed ne

-- ===== src/Term/Parser.antt =====
-- `putc` and `WriteString` of services/display/terminal/term.go: the byte-wise parser.
pub mod Sane
pub mod Plain
pub mod Region
use mkgo.Common.{
  ℕ, ◌+◌, ◌-◌, ◌*◌, ◌/◌, Bool, true, false, ◌&&◌, ◌||◌, not, List, [], ◌∷◌, ◌++◌, length, ltb, leb,
  ◌==◌, if◌then◌else◌, Option, none, some,
}
use mkgo.Term.Cells.{and_then, make_list}
use mkgo.Term.Number.{is_digit, split}
use mkgo.Term.Screen.{
  Terminal, Cell, clear, set_cell, advance, advance_to_tab_stop, backspace, new_line,
}
use mkgo.Term.Control.{apply_sgr, apply_dec_private, apply_osc, csi_final}

-- `case t.esc`.
unfoldable pub put_esc : ℕ → Terminal → Terminal
put_esc c t =
    if c == b'['
    then record t { esc = false; csi = true; dec_pm = false; csi_buf = [] }
    else if c == b']'
    then record t { esc = false; osc = true; osc_buf = [] }
    else record t { esc = false }

-- `case t.csi`.
abbrev pub is_empty : List ℕ → Bool
is_empty [] = true
is_empty (c ∷ s) = false

unfoldable pub collect : ℕ → Terminal → Terminal
collect c t =
    if c == b'?' && is_empty t.csi_buf
    then record t { dec_pm = true }
    else record t { csi_buf = t.csi_buf ++ c ∷ [] }

unfoldable pub finish_csi : ℕ → Terminal → Option Terminal
finish_csi c t =
    if c == b'm'
    then some (apply_sgr t.csi_buf t)
    else if t.dec_pm
    then some (apply_dec_private c t)
    else csi_final c (split t.csi_buf) t

unfoldable pub put_csi : ℕ → Terminal → Option Terminal
unfolding collect finish_csi
put_csi c t =
    if is_digit c || c == b';' || c == b'?'
    then some (collect c t)
    else finish_csi c (record t { csi = false })

-- The last byte of the buffer is an escape, and the buffer without it.
abbrev pub ends_in_esc : List ℕ → Bool
ends_in_esc [] = false
ends_in_esc (c ∷ []) = c == 27
ends_in_esc (c ∷ d ∷ s) = ends_in_esc (d ∷ s)

abbrev pub chop : List ℕ → List ℕ
chop [] = []
chop (c ∷ []) = []
chop (c ∷ d ∷ s) = c ∷ chop (d ∷ s)

unfoldable pub end_osc : List ℕ → Terminal → Terminal
end_osc s t = record (apply_osc s t) { osc = false; osc_buf = [] }

-- `case t.osc`.
unfoldable pub put_osc : ℕ → Terminal → Terminal
unfolding end_osc
put_osc c t =
    if c == 7 || ltb 127 c
    then end_osc t.osc_buf t
    else if c == 27
    then if ends_in_esc t.osc_buf then t else record t { osc_buf = t.osc_buf ++ c ∷ [] }
    else if ends_in_esc t.osc_buf
    then if c == b'\\'
      then end_osc (chop t.osc_buf) t
      else record t { osc_buf = chop t.osc_buf ++ c ∷ [] }
    else record t { osc_buf = t.osc_buf ++ c ∷ [] }

-- The last switch of `putc`.
unfoldable pub put_plain : ℕ → Terminal → Option Terminal
put_plain c t =
    if c == 27
    then some (record t { esc = true })
    else if c == 10
    then new_line t
    else if c == 13
    then some (record t { cur_x = 0 })
    else if c == 9
    then advance_to_tab_stop t
    else if c == 8 || c == 127
    then backspace t
    else if leb 32 c
    then and_then (set_cell c t) advance
    else some t

-- `putc`.
unfoldable pub putc : ℕ → Terminal → Option Terminal
putc c t =
    if t.esc
    then some (put_esc c t)
    else if t.csi
    then put_csi c t
    else if t.osc
    then some (put_osc c t)
    else put_plain c t

-- `WriteString`.
unfoldable pub write_string : List ℕ → Terminal → Option Terminal
write_string [] t = some t
write_string (c ∷ s) t = and_then (putc c t) (write_string s)

-- `New` on a window of `width` by `height` pixels: `resize` and `resetInitialState`.
abbrev pub or_default : ℕ → ℕ → ℕ
or_default n def = if n == 0 then def else n

unfoldable pub new_terminal : ℕ → ℕ → Terminal
unfolding clear
new_terminal width height =
    let w = or_default (width / 8) 80 in
    let h = or_default (height / 16) 25 in
    let zero_cell : Cell = record { ch = 0; fg = 0; bg = 0 } in
    clear (record {
      cols = w;
      rows = h;
      grid = make_list (w * h) zero_cell;
      cur_x = 0;
      cur_y = 0;
      fg = 7;
      bg = 0;
      dirty = false;
      esc = false;
      csi = false;
      dec_pm = false;
      csi_buf = [];
      osc = false;
      osc_buf = [];
      cursor_visible = true;
      cursor_blink = false;
      cursor_on = true;
      cursor_ticker = 0;
      saved_x = 0;
      saved_y = 0;
      alt_screen = false;
      alt_grid = make_list (w * h) zero_cell;
      alt_x = 0;
      alt_y = 0;
      scroll_top = 0;
      scroll_bottom = h - 1;
      bracketed_paste = false;
      focus_reporting = false;
      mouse_mode = 0;
      auto_wrap = true;
      app_cursor_keys = false;
      title = [];
    })

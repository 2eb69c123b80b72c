-- ===== src/Term/Control.antt =====
-- The control sequences of `Terminal`: graphic rendition, private modes, titles and the final
-- bytes of a CSI sequence (services/display/terminal/term.go).
pub mod Sane
use mkgo.Common.{
  ℕ, zero, suc, ◌+◌, ◌-◌, Bool, true, false, ◌&&◌, ◌||◌, not, List, [], ◌∷◌, length, ltb, leb, ◌==◌,
  if◌then◌else◌, Option, none, some,
}
use mkgo.Term.Number.{Parsed, atoi, split, param}
use mkgo.Term.Screen.{
  Terminal, move_up, move_down, move_right, move_left, move_to, save_cursor, restore_cursor,
  set_region, switch_to_alt_screen, switch_to_normal_screen,
}
use mkgo.Term.Erase.{erase_display, erase_line, erase_chars}

-- The body of the loop of `applySGR`.
unfoldable pub apply_sgr_one : Parsed → Terminal → Terminal
apply_sgr_one p t =
    let n = p.value in
    if not p.fine
    then t
    else if n == 0
    then record t { fg = 7; bg = 0 }
    else if n == 1
    then if ltb t.fg 8 then record t { fg = t.fg + 8 } else t
    else if leb 30 n && leb n 37
    then record t { fg = n - 30 }
    else if leb 40 n && leb n 47
    then record t { bg = n - 40 }
    else t

unfoldable pub apply_sgr_all : List (List ℕ) → Terminal → Terminal
apply_sgr_all [] t = t
apply_sgr_all (p ∷ parts) t = apply_sgr_all parts (apply_sgr_one (atoi p) t)

-- `applySGR`.
unfoldable pub apply_sgr : List ℕ → Terminal → Terminal
unfolding apply_sgr_all
apply_sgr [] t = record t { fg = 7; bg = 0 }
apply_sgr (c ∷ params) t = apply_sgr_all (split (c ∷ params)) t

-- `ShowCursor`, `HideCursor` and `Tick`.
unfoldable pub show_cursor : Bool → Terminal → Terminal
show_cursor blink t = record t {
  cursor_visible = true;
  cursor_blink = blink;
  cursor_on = true;
  dirty = true;
}

unfoldable pub hide_cursor : Terminal → Terminal
hide_cursor t = record t { cursor_visible = false; cursor_on = false; dirty = true }

unfoldable pub tick : Terminal → Terminal
tick t =
    if not t.cursor_blink || not t.cursor_visible
    then t
    else if leb 2 (t.cursor_ticker + 1)
    then record t { cursor_ticker = 0; cursor_on = not t.cursor_on; dirty = true }
    else record t { cursor_ticker = t.cursor_ticker + 1 }

-- The mouse modes 1000, 1002 and 1006, set and reset.
abbrev pub mouse_set : ℕ → ℕ → ℕ
mouse_set n mode =
    if n == 1000 then if mode == 0 then 1000 else mode else if ltb mode n then n else mode

abbrev pub mouse_reset : ℕ → ℕ → ℕ
mouse_reset n mode = if n == 1000 then 0 else if n == 1002 && mode == 1002 then 1000 else mode

-- The body of the loop of `applyDECSet`.
unfoldable pub dec_set_one : Bool → ℕ → Terminal → Terminal
unfolding show_cursor hide_cursor
dec_set_one set n t =
    if n == 25
    then if set then show_cursor t.cursor_blink t else hide_cursor t
    else if n == 1049
    then if set then switch_to_alt_screen t else switch_to_normal_screen t
    else if n == 1
    then record t { app_cursor_keys = set }
    else if n == 7
    then record t { auto_wrap = set }
    else if n == 2004
    then record t { bracketed_paste = set }
    else if n == 1004
    then record t { focus_reporting = set }
    else if n == 1000 || n == 1002 || n == 1006
    then record t {
      mouse_mode = if set then mouse_set n t.mouse_mode else mouse_reset n t.mouse_mode;
    }
    else t

unfoldable pub dec_set_all : Bool → List (List ℕ) → Terminal → Terminal
dec_set_all set [] t = t
dec_set_all set (p ∷ parts) t = dec_set_all set parts (dec_set_one set (atoi p).value t)

-- `applyDECPrivate` with `applyDECSet`.
unfoldable pub apply_dec_private : ℕ → Terminal → Terminal
unfolding dec_set_all
apply_dec_private final t =
    if final == b'l'
    then dec_set_all false (split t.csi_buf) t
    else if final == b'h'
    then dec_set_all true (split t.csi_buf) t
    else t

-- `bytes.SplitN(osc, ";", 2)`: the part before the first ';' and the part behind it.
unfoldable pub split_first : List ℕ → List ℕ × List ℕ
split_first [] = ([], [])
split_first (c ∷ s) = let (p, rest) = split_first s in if c == 59 then ([], s) else (c ∷ p, rest)

-- The texts "0" and "2".
abbrev pub is_title : List ℕ → Bool
is_title (c ∷ []) = c == 48 || c == 50
is_title _ = false

-- `applyOSC`.
unfoldable pub apply_osc : List ℕ → Terminal → Terminal
apply_osc osc t =
    let (p, payload) = split_first osc in if is_title p then record t { title = payload } else t

-- The switch on the final byte of a CSI sequence; 'n' drops its reply.
unfoldable pub csi_final : ℕ → List (List ℕ) → Terminal → Option Terminal
csi_final c parts t =
    if c == b'J'
    then erase_display (param 0 0 parts) t
    else if c == b'K'
    then erase_line (param 0 0 parts) t
    else if c == b'X'
    then erase_chars (param 0 0 parts) t
    else some (
        if c == b'H'
        then move_to (param 0 1 parts) (param 1 1 parts) t
        else if c == b'A'
        then move_up (param 0 1 parts) t
        else if c == b'B'
        then move_down (param 0 1 parts) t
        else if c == b'C'
        then move_right (param 0 1 parts) t
        else if c == b'D'
        then move_left (param 0 1 parts) t
        else if c == b's'
        then save_cursor t
        else if c == b'u'
        then restore_cursor t
        else if c == b'r'
        then set_region (param 0 0 parts) (param 1 0 parts) t
        else t)

-- ===== src/Term/Parser/Sane.antt =====
-- The invariant through the parser: no byte makes the terminal panic, but a region that is too large.
use mkgo.Common.{
  ℕ, ◌*◌, ◌/◌, ◌<◌, ◌≡◌, refl, ◌∙◌, arith, Bool, true, false, ◌&&◌, ◌||◌, List, [], ◌∷◌, ◌++◌,
  length, ltb, leb, ◌==◌, if◌then◌else◌, Option, some, ◌≢◌,
}
use mkgo.Term.Cells.{and_then, make_list, length-make_list}
use mkgo.Term.Number.{is_digit, split}
use mkgo.Term.Screen.{Terminal, Cell, clear, advance}
use mkgo.Term.Screen.Sane.{Sane, Good, set_cell-Good, new_line-Good}
use mkgo.Term.Screen.Draws.{advance-Good, advance_to_tab_stop-Good, backspace-Good}
use mkgo.Term.Control.{apply_osc}
use mkgo.Term.Control.Sane.{
  apply_sgr-Sane, apply_dec_private-Sane, apply_osc-Sane, csi_final-Good, Fits, if-Sane, if-Good,
}
use mkgo.Term.Parser.{
  put_esc, collect, is_empty, finish_csi, put_csi, ends_in_esc, chop, end_osc, put_osc, put_plain,
  putc, write_string, or_default, new_terminal,
}

-- The byte does not occur in the text.
abbrev pub Absent : ℕ → List ℕ → Type 0
Absent b [] = Unit {0}
Absent b (c ∷ s) = (c ≢ b) × Absent b s

-- What the parser keeps between bytes is no part of the invariant.
parsing-Sane :
    (e c p o : Bool) (cs os : List ℕ) (t : Terminal)
    → Sane t
    → Sane (record t { esc = e; csi = c; dec_pm = p; osc = o; csi_buf = cs; osc_buf = os })
parsing-Sane e c p o cs os t h = ground (arith, h)

put_esc-Sane : (c : ℕ) (t : Terminal) → Sane t → Sane (put_esc c t)
unfolding put_esc
put_esc-Sane c t h =
    if-Sane (c == b'[') _ _ (parsing-Sane false true false t.osc [] t.osc_buf t h) (
      if-Sane (c == b']') _ _ (parsing-Sane false t.csi t.dec_pm true t.csi_buf [] t h)
        (parsing-Sane false t.csi t.dec_pm t.osc t.csi_buf t.osc_buf t h))

collect-Sane : (c : ℕ) (t : Terminal) → Sane t → Sane (collect c t)
unfolding collect
collect-Sane c t h =
    if-Sane (c == b'?' && is_empty t.csi_buf) _ _
      (parsing-Sane t.esc t.csi true t.osc t.csi_buf t.osc_buf t h)
      (parsing-Sane t.esc t.csi t.dec_pm t.osc (t.csi_buf ++ c ∷ []) t.osc_buf t h)

end_osc-Sane : (s : List ℕ) (t : Terminal) → Sane t → Sane (end_osc s t)
unfolding end_osc
end_osc-Sane s t h =
    let r = apply_osc s t in
    parsing-Sane r.esc r.csi r.dec_pm false r.csi_buf [] r (apply_osc-Sane s t h)

put_osc-Sane : (c : ℕ) (t : Terminal) → Sane t → Sane (put_osc c t)
unfolding put_osc
put_osc-Sane c t h =
    let more = λ (l : List ℕ). parsing-Sane t.esc t.csi t.dec_pm t.osc t.csi_buf l t h in
    if-Sane (c == 7 || ltb 127 c) _ _ (end_osc-Sane t.osc_buf t h) (
      if-Sane (c == 27) _ _ (if-Sane (ends_in_esc t.osc_buf) _ _ h (more (t.osc_buf ++ c ∷ []))) (
        if-Sane (ends_in_esc t.osc_buf) _ _
          (if-Sane (c == b'\\') _ _ (end_osc-Sane (chop t.osc_buf) t h)
            (more (chop t.osc_buf ++ c ∷ [])))
          (more (t.osc_buf ++ c ∷ []))))

and_then-Good :
    (o : Option Terminal) (f : Terminal → Option Terminal)
    → Good o
    → ((t : Terminal) → Sane t → Good (f t))
    → Good (and_then o f)
and_then-Good o f (t, e, h) k = rw e (k t h)

-- The branches know the test.
if_known-Good :
    (b : Bool) (o p : Option Terminal)
    → (b ≡ true → Good o)
    → (b ≡ false → Good p)
    → Good (if b then o else p)
if_known-Good true o p h k = h refl
if_known-Good false o p h k = k refl

some-Good : (t : Terminal) → Sane t → Good (some t)
some-Good t h = (t, refl, h)

put_plain-Good : (c : ℕ) (t : Terminal) → Sane t → Good (put_plain c t)
unfolding put_plain
put_plain-Good c t h =
    if-Good (c == 27) _ _
      (some-Good _ (parsing-Sane true t.csi t.dec_pm t.osc t.csi_buf t.osc_buf t h))
      (if-Good (c == 10) _ _ (new_line-Good t h) (
        if-Good (c == 13) _ _ (some-Good (record t { cur_x = 0 }) (ground (arith, h))) (
          if-Good (c == 9) _ _ (advance_to_tab_stop-Good t h) (
            if-Good (c == 8 || c == 127) _ _ (backspace-Good t h) (
              if-Good (leb 32 c) _ _ (and_then-Good _ advance (set_cell-Good c t h) advance-Good)
                (some-Good t h))))))

-- The byte `c` does not end a sequence that asks for a scrolling region below the last row.
abbrev pub Tame : ℕ → Terminal → Type 0
Tame c t = t.csi ≡ true → t.dec_pm ≡ false → Fits c (split t.csi_buf) t

finish_csi-Good :
    (c : ℕ) (t : Terminal)
    → Sane t
    → (t.dec_pm ≡ false → Fits c (split t.csi_buf) t)
    → Good (finish_csi c t)
unfolding finish_csi
finish_csi-Good c t h fits = if-Good (c == b'm') _ _ (some-Good _ (apply_sgr-Sane t.csi_buf t h)) (
    if_known-Good t.dec_pm _ _ (λ private. some-Good _ (apply_dec_private-Sane c t h))
      (λ public. csi_final-Good c (split t.csi_buf) t h (fits public)))

put_csi-Good :
    (c : ℕ) (t : Terminal)
    → Sane t
    → (t.dec_pm ≡ false → Fits c (split t.csi_buf) t)
    → Good (put_csi c t)
unfolding put_csi
put_csi-Good c t h fits =
    if-Good (is_digit c || c == b';' || c == b'?') _ _ (some-Good _ (collect-Sane c t h)) (
      finish_csi-Good c (record t { csi = false })
        (parsing-Sane t.esc false t.dec_pm t.osc t.csi_buf t.osc_buf t h) fits)

-- A byte that sets no region below the last row is taken without a panic and keeps the invariant,
-- in every state of the parser.
pub putc-Good : (c : ℕ) (t : Terminal) → Sane t → Tame c t → Good (putc c t)
unfolding putc
putc-Good c t h tame = if-Good t.esc _ _ (some-Good _ (put_esc-Sane c t h)) (
    if_known-Good t.csi _ _ (λ on. put_csi-Good c t h (tame on))
      (λ off. if-Good t.osc _ _ (some-Good _ (put_osc-Sane c t h)) (put_plain-Good c t h)))

-- Every byte of the text is tame in the state in which it arrives.
abbrev pub Obeys : List ℕ → Terminal → Type 0
Obeys [] t = Unit {0}
Obeys (c ∷ s) t = Tame c t × ((u : Terminal) → putc c t ≡ some u → Obeys s u)

-- A terminal in good order takes any text in which no sequence asks for a scrolling region below
-- the last row: nothing panics, and the terminal stays in good order.
pub write_string-Good : (s : List ℕ) (t : Terminal) → Sane t → Obeys s t → Good (write_string s t)
unfolding write_string
write_string-Good [] t h o = some-Good t h
write_string-Good (c ∷ s) t h (tame, rest) =
    let (u, e, k) = putc-Good c t h tame in rw e (write_string-Good s u k (rest u e))

-- A text without the letter r asks for no region at all.
pub Absent-Obeys : (s : List ℕ) (t : Terminal) → Absent b'r' s → Obeys s t
Absent-Obeys [] t h = tt
Absent-Obeys (c ∷ s) t (ne, h) = ((λ on plain asks. absurd (ne asks)), λ u e. Absent-Obeys s u h)

or_default_pos : (n def : ℕ) → 0 < def → 0 < or_default n def
or_default_pos n def h = ground arith

mul_comm : (a b : ℕ) → a * b ≡ b * a
mul_comm a b = grind arith

-- A new terminal is in good order, whatever the size of its window.
pub new_terminal-Sane : (width height : ℕ) → Sane (new_terminal width height)
unfolding new_terminal clear
new_terminal-Sane width height =
    let w = or_default (width / 8) 80 in
    let h = or_default (height / 16) 25 in
    let cell : Cell = record { ch = 0; fg = 0; bg = 0 } in
    let space : Cell = record { ch = 32; fg = 7; bg = 0 } in
    let k = length-make_list (w * h) cell in
    let k' = length-make_list (length (make_list (w * h) cell)) space in
    record {
      wide = or_default_pos (width / 8) 80 (omega arith);
      tall = or_default_pos (height / 16) 25 (omega arith);
      area = k' ∙ k ∙ mul_comm w h;
      alt_area = k ∙ mul_comm w h;
      in_x = or_default_pos (width / 8) 80 (omega arith);
      in_y = or_default_pos (height / 16) 25 (omega arith);
      alt_in_x = or_default_pos (width / 8) 80 (omega arith);
      alt_in_y = or_default_pos (height / 16) 25 (omega arith);
      region = omega arith;
      bottom = omega (arith, or_default_pos (height / 16) 25 (omega arith));
      fg_range = omega arith;
      bg_range = omega arith;
    }

-- ===== src/Term/Control/Sane.antt =====
-- The invariant through the control sequences.
use mkgo.Common.{
  ℕ, ◌≤◌, ◌<◌, ◌≡◌, refl, arith, Bool, true, false, ◌||◌, List, [], ◌∷◌, ◌==◌, if◌then◌else◌,
  Option, Bool-cases, inl, inr,
}
use mkgo.Term.Number.{Parsed, atoi, split, param}
use mkgo.Term.Screen.{
  Terminal, clamp, clamp_pos, add_clamped, move_up, move_down, move_right, move_left, move_to,
  save_cursor, restore_cursor, set_region,
}
use mkgo.Term.Screen.Sane.{Sane, Good}
use mkgo.Term.Screen.Draws.{
  erase_display-Good, erase_line-Good, erase_chars-Good, switch_to_alt_screen-Sane,
  switch_to_normal_screen-Sane,
}
use mkgo.Term.Control.{
  apply_sgr_one, apply_sgr_all, apply_sgr, show_cursor, hide_cursor, tick, mouse_set, mouse_reset,
  dec_set_one, dec_set_all, apply_dec_private, split_first, apply_osc, csi_final,
}

clamp-lt : (limit v : ℕ) → 1 ≤ limit → clamp limit v < limit
clamp-lt limit v h = ground arith

add_clamped-lt : (limit v n : ℕ) → 1 ≤ limit → add_clamped limit v n < limit
add_clamped-lt limit v n h = ground arith

at_place :
    (x y : ℕ) (t : Terminal)
    → Sane t
    → x < t.cols
    → y < t.rows
    → Sane (record t { cur_x = x; cur_y = y })
at_place x y t h hx hy = ground (arith, h)

-- The cursor stays on the screen in every direction, at every distance.
pub move_up-Sane : (n : ℕ) (t : Terminal) → Sane t → Sane (move_up n t)
unfolding move_up
move_up-Sane n t h = at_place _ _ t h (clamp-lt _ _ h.wide) (clamp-lt _ _ h.tall)

pub move_down-Sane : (n : ℕ) (t : Terminal) → Sane t → Sane (move_down n t)
unfolding move_down
move_down-Sane n t h = at_place _ _ t h (clamp-lt _ _ h.wide) (add_clamped-lt _ _ n h.tall)

pub move_right-Sane : (n : ℕ) (t : Terminal) → Sane t → Sane (move_right n t)
unfolding move_right
move_right-Sane n t h = at_place _ _ t h (add_clamped-lt _ _ n h.wide) (clamp-lt _ _ h.tall)

pub move_left-Sane : (n : ℕ) (t : Terminal) → Sane t → Sane (move_left n t)
unfolding move_left
move_left-Sane n t h = at_place _ _ t h (clamp-lt _ _ h.wide) (clamp-lt _ _ h.tall)

pub move_to-Sane : (y x : ℕ) (t : Terminal) → Sane t → Sane (move_to y x t)
unfolding move_to clamp_pos
move_to-Sane y x t h = at_place _ _ t h (clamp-lt _ _ h.wide) (clamp-lt _ _ h.tall)

pub restore_cursor-Sane : (t : Terminal) → Sane t → Sane (restore_cursor t)
unfolding restore_cursor clamp_pos
restore_cursor-Sane t h = at_place _ _ t h (clamp-lt _ _ h.wide) (clamp-lt _ _ h.tall)

-- A region that ends on the screen.
pub set_region-Sane :
    (top bottom : ℕ) (t : Terminal) → Sane t → bottom ≤ t.rows → Sane (set_region top bottom t)
unfolding set_region
set_region-Sane top bottom t h b = ground (arith, h, b)

apply_sgr_one-Sane : (p : Parsed) (t : Terminal) → Sane t → Sane (apply_sgr_one p t)
unfolding apply_sgr_one
apply_sgr_one-Sane p t h = ground (arith, h)

apply_sgr_all-Sane : (parts : List (List ℕ)) (t : Terminal) → Sane t → Sane (apply_sgr_all parts t)
unfolding apply_sgr_all
apply_sgr_all-Sane [] t h = h
apply_sgr_all-Sane (p ∷ parts) t h =
    apply_sgr_all-Sane parts (apply_sgr_one (atoi p) t) (apply_sgr_one-Sane (atoi p) t h)

pub apply_sgr-Sane : (params : List ℕ) (t : Terminal) → Sane t → Sane (apply_sgr params t)
unfolding apply_sgr
apply_sgr-Sane [] t h = ground (arith, h)
apply_sgr-Sane (c ∷ params) t h = apply_sgr_all-Sane (split (c ∷ params)) t h

pub tick-Sane : (t : Terminal) → Sane t → Sane (tick t)
unfolding tick
tick-Sane t h = ground (arith, h)

pub if-Sane : (b : Bool) (s t : Terminal) → Sane s → Sane t → Sane (if b then s else t)
if-Sane true s t h k = h
if-Sane false s t h k = k

-- What the invariant does not speak of.
modes-Sane :
    (keys wrap paste focus : Bool) (mouse : ℕ) (t : Terminal)
    → Sane t
    → Sane (record t {
      app_cursor_keys = keys;
      auto_wrap = wrap;
      bracketed_paste = paste;
      focus_reporting = focus;
      mouse_mode = mouse;
    })
modes-Sane keys wrap paste focus mouse t h = ground (arith, h)

shown-Sane :
    (visible blink on : Bool) (t : Terminal)
    → Sane t
    → Sane
        (record t { cursor_visible = visible; cursor_blink = blink; cursor_on = on; dirty = true })
shown-Sane visible blink on t h = ground (arith, h)

titled-Sane : (title : List ℕ) (t : Terminal) → Sane t → Sane (record t { title = title })
titled-Sane title t h = ground (arith, h)

saved-Sane : (x y : ℕ) (t : Terminal) → Sane t → Sane (record t { saved_x = x; saved_y = y })
saved-Sane x y t h = ground (arith, h)

dec_set_one-Sane : (set : Bool) (n : ℕ) (t : Terminal) → Sane t → Sane (dec_set_one set n t)
unfolding dec_set_one show_cursor hide_cursor
dec_set_one-Sane set n t h =
    let keys = t.app_cursor_keys in
    let wrap = t.auto_wrap in
    let paste = t.bracketed_paste in
    let focus = t.focus_reporting in
    let mouse = t.mouse_mode in
    if-Sane (n == 25) _ _
      (if-Sane set _ _ (shown-Sane true t.cursor_blink true t h)
        (shown-Sane false t.cursor_blink false t h))
      (if-Sane (n == 1049) _ _
        (if-Sane set _ _ (switch_to_alt_screen-Sane t h) (switch_to_normal_screen-Sane t h))
        (if-Sane (n == 1) _ _ (modes-Sane set wrap paste focus mouse t h) (
          if-Sane (n == 7) _ _ (modes-Sane keys set paste focus mouse t h) (
            if-Sane (n == 2004) _ _ (modes-Sane keys wrap set focus mouse t h) (
              if-Sane (n == 1004) _ _ (modes-Sane keys wrap paste set mouse t h) (
                if-Sane (n == 1000 || n == 1002 || n == 1006) _ _
                  (modes-Sane keys wrap paste focus
                    (if set then mouse_set n mouse else mouse_reset n mouse) t h)
                  h))))))

dec_set_all-Sane :
    (set : Bool) (parts : List (List ℕ)) (t : Terminal) → Sane t → Sane (dec_set_all set parts t)
unfolding dec_set_all
dec_set_all-Sane set [] t h = h
dec_set_all-Sane set (p ∷ parts) t h =
    dec_set_all-Sane set parts (dec_set_one set (atoi p).value t)
      (dec_set_one-Sane set (atoi p).value t h)

pub apply_dec_private-Sane : (final : ℕ) (t : Terminal) → Sane t → Sane (apply_dec_private final t)
unfolding apply_dec_private
apply_dec_private-Sane final t h =
    if-Sane _ _ _ (dec_set_all-Sane false (split t.csi_buf) t h)
      (if-Sane _ _ _ (dec_set_all-Sane true (split t.csi_buf) t h) h)

pub apply_osc-Sane : (osc : List ℕ) (t : Terminal) → Sane t → Sane (apply_osc osc t)
unfolding apply_osc
apply_osc-Sane osc t h = if-Sane _ _ _ (titled-Sane (split_first osc).1 t h) h

pub if-Good : (b : Bool) (o p : Option Terminal) → Good o → Good p → Good (if b then o else p)
if-Good true o p h k = h
if-Good false o p h k = k

-- The final byte asks for no region below the last row.
abbrev pub Fits : ℕ → List (List ℕ) → Terminal → Type 0
Fits c parts t = c ≡ b'r' → param 1 0 parts ≤ t.rows

region-Sane :
    (c : ℕ) (parts : List (List ℕ)) (t : Terminal)
    → Sane t
    → Fits c parts t
    → Sane (if c == b'r' then set_region (param 0 0 parts) (param 1 0 parts) t else t)
region-Sane c parts t h fits = elim (Bool-cases (c == b'r')) [
  | inl asks ↦
      rw asks (set_region-Sane (param 0 0 parts) (param 1 0 parts) t h (fits (ground arith)))
  | inr other ↦ rw other h
]

pub csi_final-Good :
    (c : ℕ) (parts : List (List ℕ)) (t : Terminal)
    → Sane t
    → Fits c parts t
    → Good (csi_final c parts t)
unfolding csi_final save_cursor
csi_final-Good c parts t h fits = if-Good _ _ _ (erase_display-Good (param 0 0 parts) t h) (
    if-Good _ _ _ (erase_line-Good (param 0 0 parts) t h) (
      if-Good _ _ _ (erase_chars-Good (param 0 0 parts) t h) (
        _,
        refl,
        if-Sane _ _ _ (move_to-Sane _ _ t h) (
            if-Sane _ _ _ (move_up-Sane _ t h) (
              if-Sane _ _ _ (move_down-Sane _ t h) (
                if-Sane _ _ _ (move_right-Sane _ t h) (
                  if-Sane _ _ _ (move_left-Sane _ t h) (
                    if-Sane _ _ _ (saved-Sane t.cur_x t.cur_y t h)
                      (if-Sane _ _ _ (restore_cursor-Sane t h) (region-Sane c parts t h fits))))))),
      )))

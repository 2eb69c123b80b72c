-- ===== src/Term/Tests.antt =====
-- The theorems on the terminal at concrete values, and tests of it.
use mkgo.Common.{ℕ, ◌-◌, ◌≡◌, ◌≢◌, refl, arith, true, false, List, [], ◌∷◌, ◌++◌, none, some}
use mkgo.Term.Screen.{Terminal, switch_to_alt_screen, switch_to_normal_screen}
use mkgo.Term.Screen.Sane.{Good}
use mkgo.Term.Parser.{putc, write_string, new_terminal}
use mkgo.Term.Parser.Sane.{putc-Good, write_string-Good, Absent-Obeys, new_terminal-Sane}
use mkgo.Term.Parser.Plain.{AtRest, Restored, switch_to_normal_screen-switch_to_alt_screen}
use mkgo.Term.Parser.Region.{region_999, feeds_and, write_string-panics}

-- A window of two by two cells.
abbrev small : Terminal
small = new_terminal 16 32

small-AtRest : AtRest small
unfolding new_terminal
small-AtRest = record { no_esc = refl; no_csi = refl; no_osc = refl }

no_sequence : small.csi ≢ true
unfolding new_terminal
no_sequence on = cc

putc-Good_example : Good (putc b'A' small)
putc-Good_example = putc-Good b'A' small (new_terminal-Sane 16 32) (λ on. absurd (no_sequence on))

-- ESC [ 2 J H
abbrev erasing : List ℕ
erasing = 27 ∷ b'[' ∷ b'2' ∷ b'J' ∷ b'H' ∷ []

write_string-Good_example : Good (write_string erasing small)
write_string-Good_example = write_string-Good erasing small (new_terminal-Sane 16 32) (
    Absent-Obeys erasing small (
      (λ e. omega arith),
      ((λ e. omega arith), ((λ e. omega arith), ((λ e. omega arith), ((λ e. omega arith), tt)))),
    ))

normal_first : small.alt_screen ≡ false
unfolding new_terminal
normal_first = refl

switch_to_normal_screen-switch_to_alt_screen_example :
    (u : Terminal) × (write_string (b'A' ∷ 10 ∷ []) (switch_to_alt_screen small) ≡ some u)
    × Restored small (switch_to_normal_screen u)
switch_to_normal_screen-switch_to_alt_screen_example =
    switch_to_normal_screen-switch_to_alt_screen (b'A' ∷ 10 ∷ []) small (new_terminal-Sane 16 32)
      small-AtRest normal_first ((λ e. omega arith), ((λ e. omega arith), tt))

two_rows : small.rows ≡ 2
unfolding new_terminal
two_rows = refl

write_string-panics_example :
    write_string (region_999 ++ feeds_and (small.rows - small.cur_y) b'A') small ≡ none
write_string-panics_example =
    write_string-panics b'A' small (new_terminal-Sane 16 32) small-AtRest (omega (arith, two_rows))
      (omega arith) (λ e. omega arith)

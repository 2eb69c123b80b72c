-- ===== src/Init/Conf/RoundTrip.antt =====
-- A configuration that is written out is read back.
use mkgo.Common.{
  ℕ, zero, suc, ◌/◌, ◌%◌, ◌<◌, ◌≡◌, refl, ap, ◌∙◌, arith, Bool, true, false, List, [], ◌∷◌, ◌++◌,
  All, ◌==◌, some,
}
use mkgo.Init.Supervisor.{Service}
use mkgo.Init.Conf.{
  is_space, space_len, no_bytes, split_lines, trim_left, trim_right, fields_from, parse_hex,
  trim_0x, respawn_yes, respawn_no, parse_policy, parse_fields, is_skipped, parse_lines, parse_conf,
}
use mkgo.Init.Conf.Words.{
  digit, plain-NoSpace, space_len-append, no_feed, hex, hex_loop-hex, NoSpace, IsWord, All-append,
  fields_from-word, fields_from-last, close_word-word, Solid, trim_right-Solid, Solid-append,
  split_lines-line,
}

-- A line of the configuration as it is written by hand: name, path, capability mask and policy.
abbrev policy_text : Bool → List ℕ
policy_text true = respawn_yes
policy_text false = respawn_no

abbrev mask_text : ℕ → List ℕ
mask_text m = 48 ∷ 120 ∷ hex 16 m

abbrev pub line_text : Service → List ℕ
line_text svc =
    svc.name ++ 32 ∷ (svc.path ++ 32 ∷ (mask_text svc.capmask ++ 32 ∷ policy_text svc.respawn))

abbrev pub conf_text : List Service → List ℕ
conf_text [] = []
conf_text (svc ∷ svcs) = line_text svc ++ 10 ∷ conf_text svcs

-- The name and the path are words, the name does not begin a comment, and the mask has 64 bits.
pub record IsService (svc : Service) : Type 0 where
  pub name_word : IsWord svc.name
  pub path_word : IsWord svc.path
  pub no_comment : is_skipped svc.name ≡ false
  pub mask_range : svc.capmask < 18446744073709551616

-- A byte that stands in a word wherever it stands.
abbrev IsPlain : ℕ → Type 0
IsPlain c = (is_space c ≡ false) × (c < 128)

digit-IsPlain : (d : ℕ) → d < 16 → IsPlain (digit d)
digit-IsPlain d h = (ground arith, ground arith)

hex-IsPlain : (n v : ℕ) → All IsPlain (hex n v)
unfolding hex
hex-IsPlain zero v = tt
hex-IsPlain (suc n) v =
    All-append IsPlain (hex n (v / 16)) (digit (v % 16) ∷ []) (hex-IsPlain n (v / 16))
      (digit-IsPlain (v % 16) (omega arith), tt)

mask-NoSpace : (m : ℕ) → NoSpace (mask_text m)
mask-NoSpace m =
    plain-NoSpace (mask_text m) ((refl, omega arith), ((refl, omega arith), hex-IsPlain 16 m))

policy-NoSpace : (b : Bool) → NoSpace (policy_text b)
unfolding space_len
policy-NoSpace true =
    (refl, (refl, (refl, (refl, (refl, (refl, (refl, (refl, (refl, (refl, (refl, tt)))))))))))
policy-NoSpace false =
    (refl, (refl, (refl, (refl, (refl, (refl, (refl, (refl, (refl, (refl, tt))))))))))

policy-Solid : (b : Bool) → Solid (policy_text b)
policy-Solid true = (refl, omega arith)
policy-Solid false = (refl, omega arith)

policy-IsWord : (b : Bool) → IsWord (policy_text b)
policy-IsWord true = (policy-NoSpace true, refl)
policy-IsWord false = (policy-NoSpace false, refl)

one_word : (w s : List ℕ) → IsWord w → fields_from 0 [] (w ++ 32 ∷ s) ≡ w ∷ fields_from 0 [] s
one_word w s h = fields_from-word [] w s h.0 ∙ close_word-word w (fields_from 0 [] s) h

last_word : (w : List ℕ) → IsWord w → fields_from 0 [] w ≡ w ∷ []
last_word w h = fields_from-last [] w h.0 ∙ close_word-word w [] h

line_fields :
    (svc : Service)
    → IsService svc
    → fields_from 0 [] (line_text svc)
      ≡ svc.name ∷ svc.path ∷ mask_text svc.capmask ∷ policy_text svc.respawn ∷ []
line_fields svc h =
    one_word svc.name _ h.name_word
    ∙ ap (λ l. svc.name ∷ l)
        (one_word svc.path _ h.path_word
          ∙ ap (λ l. svc.path ∷ l)
              (one_word (mask_text svc.capmask) _ (mask-NoSpace svc.capmask, refl)
                ∙ ap (λ l. mask_text svc.capmask ∷ l)
                    (last_word (policy_text svc.respawn) (policy-IsWord svc.respawn))))

no_bytes-snoc : (l : List ℕ) (c : ℕ) → no_bytes (l ++ c ∷ []) ≡ false
no_bytes-snoc [] c = refl
no_bytes-snoc (d ∷ l) c = refl

no_bytes-hex : (n v : ℕ) → no_bytes (hex (suc n) v) ≡ false
unfolding hex
no_bytes-hex n v = no_bytes-snoc (hex n (v / 16)) (digit (v % 16))

parse_mask : (m : ℕ) → m < 18446744073709551616 → parse_hex (trim_0x (mask_text m)) ≡ some m
unfolding parse_hex
parse_mask m h = rw (no_bytes-hex 15 m) (hex_loop-hex 16 m h h)

parse_policy-text : (b : Bool) → parse_policy (policy_text b ∷ []) ≡ some b
unfolding parse_policy
parse_policy-text true = refl
parse_policy-text false = refl

parse_fields-line :
    (svc : Service)
    → IsService svc
    → parse_fields (svc.name ∷ svc.path ∷ mask_text svc.capmask ∷ policy_text svc.respawn ∷ [])
      ≡ some svc
unfolding parse_fields
parse_fields-line svc h =
    rw (parse_mask svc.capmask h.mask_range, parse_policy-text svc.respawn) refl

-- Nothing is trimmed from a line, and it is no comment.
trim_left-word : (w s : List ℕ) → IsWord w → trim_left 0 (w ++ 32 ∷ s) ≡ w ++ 32 ∷ s
unfolding trim_left
trim_left-word [] s (h, n) = cc
trim_left-word (c ∷ w) s ((hc, h), n) = rw (space_len-append c w s hc) refl

is_skipped-append : (w s : List ℕ) → no_bytes w ≡ false → is_skipped (w ++ s) ≡ is_skipped w
is_skipped-append [] s h = cc
is_skipped-append (c ∷ w) s h = refl

line-Solid : (svc : Service) → Solid (line_text svc)
line-Solid svc = Solid-append svc.name _ (
    Solid-append (32 ∷ svc.path) _ (
      Solid-append (32 ∷ mask_text svc.capmask) _
        (Solid-append (32 ∷ []) (policy_text svc.respawn) (policy-Solid svc.respawn))))

line-no_feed : (svc : Service) → IsService svc → All (λ c. c == 10 ≡ false) (line_text svc)
line-no_feed svc h =
    let joined = λ (w s : List ℕ) (a : NoSpace w) (b : All (λ c. c == 10 ≡ false) s).
      All-append (λ c. c == 10 ≡ false) w (32 ∷ s) (no_feed w a) (refl, b) in
    joined svc.name _ h.name_word.0 (
      joined svc.path _ h.path_word.0 (
        joined (mask_text svc.capmask) _ (mask-NoSpace svc.capmask)
          (no_feed (policy_text svc.respawn) (policy-NoSpace svc.respawn))))

parse_lines-line :
    (svc : Service) (ls : List (List ℕ)) (svcs : List Service)
    → IsService svc
    → parse_lines ls ≡ some svcs
    → parse_lines (line_text svc ∷ ls) ≡ some (svc ∷ svcs)
unfolding parse_lines
parse_lines-line svc ls svcs h rest =
    let behind = svc.path ++ 32 ∷ (mask_text svc.capmask ++ 32 ∷ policy_text svc.respawn) in
    let whole : trim_right (trim_left 0 (line_text svc)) ≡ line_text svc =
      ap trim_right (trim_left-word svc.name behind h.name_word)
      ∙ trim_right-Solid (line_text svc) (line-Solid svc) in
    let line : is_skipped (line_text svc) ≡ false =
      is_skipped-append svc.name (32 ∷ behind) h.name_word.1 ∙ h.no_comment in
    rw (whole, line, line_fields svc h, parse_fields-line svc h, rest) refl

-- Every list of services is read back from the configuration that spells it out, one line to a
-- service with its mask in hexadecimal and its policy: if names and paths are words without white
-- space, the Unicode white space included, no name begins a comment, and the masks have 64 bits.
pub parse_conf-conf_text :
    (svcs : List Service) → All IsService svcs → parse_conf (conf_text svcs) ≡ some svcs
unfolding parse_conf
parse_conf-conf_text [] h = refl
parse_conf-conf_text (svc ∷ svcs) (h, hs) =
    ap parse_lines (split_lines-line (line_text svc) (conf_text svcs) (line-no_feed svc h))
    ∙ parse_lines-line svc (split_lines (conf_text svcs)) svcs h (parse_conf-conf_text svcs hs)

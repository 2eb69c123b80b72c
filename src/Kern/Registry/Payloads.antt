-- ===== src/Kern/Registry/Payloads.antt =====
-- The payloads of the requests of guests/lib/registry.go.
use mkgo.Common.{ℕ, ◌+◌, ◌%◌, List, [], ◌∷◌, ◌++◌, length}
use mkgo.Common.Bytes.{copy_at, make_bytes}
use mkgo.Kern.Frame.{le16, le32, le64, pad_name}

unfoldable pub login_payload : List ℕ → ℕ → ℕ → List ℕ
login_payload name uid capmask =
    let pl = make_bytes 24 in
    let pl = copy_at 0 (pad_name name) pl in
    let pl = copy_at 16 (le32 uid) pl in copy_at 20 (le32 (capmask % 4294967296)) pl

unfoldable pub setconf_payload : List ℕ → ℕ → List ℕ
setconf_payload key value =
    let pl = make_bytes 24 in let pl = copy_at 0 (pad_name key) pl in copy_at 16 (le64 value) pl

unfoldable pub chcaps_payload : ℕ → ℕ → ℕ → List ℕ
chcaps_payload sid clear set =
    let pl = make_bytes 12 in
    let pl = copy_at 0 (le32 sid) pl in
    let pl = copy_at 4 (le32 (clear % 4294967296)) pl in copy_at 8 (le32 (set % 4294967296)) pl

unfoldable pub assign_pci_payload : ℕ → ℕ → ℕ → ℕ → List ℕ
assign_pci_payload sid bus dev fn =
    let pl = make_bytes 7 in let pl = copy_at 0 (bus ∷ dev ∷ fn ∷ []) pl in copy_at 3 (le32 sid) pl

unfoldable pub knob_payload : ℕ → ℕ → List ℕ
knob_payload idx value = copy_at 1 (le64 value) (copy_at 0 (idx ∷ []) (make_bytes 9))

-- The argument tail of `Spawn`: each argument and a zero byte.
unfoldable pub argv_bytes : List (List ℕ) → List ℕ
argv_bytes [] = []
argv_bytes (a ∷ args) = a ++ (0 ∷ argv_bytes args)

abbrev pub spawn_hdr_len : ℕ
spawn_hdr_len = 86

-- `pad64`.
unfoldable pub pad64 : List ℕ → List ℕ
pad64 s = copy_at 0 s (make_bytes 64)

unfoldable pub spawn_payload : List ℕ → List ℕ → ℕ → List (List ℕ) → List ℕ
spawn_payload name path capmask args =
    let argv = argv_bytes args in
    let pl = make_bytes (spawn_hdr_len + length argv) in
    let pl = copy_at 0 (pad_name name) pl in
    let pl = copy_at 16 (pad64 path) pl in
    let pl = copy_at 80 (le32 (capmask % 4294967296)) pl in
    let pl = copy_at 84 (le16 (length args % 65536)) pl in copy_at 86 argv pl

-- ===== src/Kern/Tests.antt =====
-- The theorems on frames, requests and replies at concrete values.
use mkgo.Common.{ℕ, ◌≡◌, refl, arith, List, [], ◌∷◌, drop, some, All}
use mkgo.Common.Bytes.{make_bytes}
use mkgo.Kern.Frame.{parse_header, frame_canonical}
use mkgo.Kern.Frame.RoundTrip.{IsName, parse_header-frame_canonical}
use mkgo.Kern.Client.{Kernel, Received, ok, nothing, datagram, reply, poll}
use mkgo.Kern.Client.Poll.{Waits, ready, stale, poll-Waits}
use mkgo.Kern.Client.Book.{bind, find}
use mkgo.Kern.Registry.Replies.{SessionInfo, decode_list}
use mkgo.Kern.Registry.Decode.{IsSession, list_reply, decode_list-list_reply}

abbrev arrived : List (List ℕ) → List (List ℕ) × Received
arrived [] = ([], nothing)
arrived (b ∷ l) = (l, datagram b)

-- A kernel whose state is the queue of every port; each bound handle is 1.
abbrev scripted : Kernel
scripted = record {
  World = List (List ℕ);
  port_create = λ name w. (w, some 1);
  port_bind = λ name w. (w, some 1);
  port_send = λ h b w. (w, ok);
  port_recv = λ h w. arrived w;
  yield = λ w. w;
}

-- Bare headers with the sequence numbers 7 and 8.
abbrev old_reply : List ℕ
old_reply = 1 ∷ 0 ∷ 7 ∷ make_bytes 21

abbrev new_reply : List ℕ
new_reply = 1 ∷ 0 ∷ 8 ∷ make_bytes 21

-- The name "fs".
abbrev fs_name : List ℕ
fs_name = 102 ∷ 115 ∷ []

fs_name-IsName : IsName fs_name
fs_name-IsName = (λ e. omega arith, (λ e. omega arith, tt))

parse_header-frame_canonical_example :
    (parse_header (frame_canonical 3 8 fs_name (9 ∷ []))
      ≡ some (record { op = 3; seq = 8; uid = 0; rname = fs_name }))
    × (drop 24 (frame_canonical 3 8 fs_name (9 ∷ [])) ≡ 9 ∷ [])
parse_header-frame_canonical_example =
    parse_header-frame_canonical 3 8 fs_name (9 ∷ []) (omega arith) (omega arith) fs_name-IsName
      (omega arith)

found_reply : (poll scripted 5 1 8 (old_reply ∷ new_reply ∷ [])).1 ≡ reply new_reply
unfolding poll
found_reply = refl

waited : Waits scripted 1 8 1 (old_reply ∷ new_reply ∷ []) (new_reply ∷ [])
waited = stale old_reply refl (omega arith) (λ e. omega arith) ready

poll-Waits_example : poll scripted 4 1 8 (old_reply ∷ new_reply ∷ []) ≡ ([], reply new_reply)
poll-Waits_example =
    poll-Waits scripted 1 8 1 2 (old_reply ∷ new_reply ∷ []) (new_reply ∷ []) [] new_reply waited
      refl (omega arith) refl

bound : (bind scripted fs_name [] []).2 ≡ some 1
unfolding bind find
bound = refl

abbrev sessions : List SessionInfo
sessions =
    record { sid = 4; uid = 0; state = 1; name = fs_name; source = 1 }
    ∷ record { sid = 5; uid = 70000; state = 3; name = fs_name; source = 0 }
    ∷ []

sessions-IsSession : All IsSession sessions
sessions-IsSession = (
  record {
    sid_word = omega arith;
    uid_word = omega arith;
    name_chars = fs_name-IsName;
    name_fits = omega arith;
  },
  (
    record {
      sid_word = omega arith;
      uid_word = omega arith;
      name_chars = fs_name-IsName;
      name_fits = omega arith;
    },
    tt,
  ),
)

decode_list-list_reply_example : decode_list (list_reply (make_bytes 24) sessions) ≡ reply sessions
decode_list-list_reply_example =
    decode_list-list_reply (make_bytes 24) sessions refl (omega arith) sessions-IsSession

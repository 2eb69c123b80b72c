-- ===== src/Init/Tests.antt =====
-- The theorems on the supervisor and its protocol at concrete values.
use mkgo.Common.{ℕ, ◌≡◌, refl, arith, true, false, List, [], ◌∷◌, ◌++◌, All, some}
use mkgo.Common.Bytes.{make_bytes}
use mkgo.Kern.Client.{
  request, next_seq, call, poll, budget_of, Kernel, Received, ok, nothing, datagram, reply,
}
use mkgo.Kern.Frame.{frame_request}
use mkgo.Kern.Registry.Replies.{decode_list}
use mkgo.Kern.Registry.Calls.{RegistryClient, list}
use mkgo.Init.Policy.{before, with_flag, policy_flag, split_policy_payload}
use mkgo.Init.Conf.{parse_conf, space_len}
use mkgo.Init.Conf.RoundTrip.{conf_text, IsService, parse_conf-conf_text}
use mkgo.Init.Supervisor.{Service, SvcState, boot}
use mkgo.Init.Supervisor.Events.{supervise, sweep_event, restart_event}
use mkgo.Init.Supervisor.Laws.{IsSane}
use mkgo.Init.Supervisor.Runs.{supervise-boot}

-- The name "fs".
abbrev fs_name : List ℕ
fs_name = 102 ∷ 115 ∷ []

taken : split_policy_payload (102 ∷ 115 ∷ 0 ∷ 49 ∷ []) ≡ some (fs_name, true)
unfolding split_policy_payload before with_flag policy_flag
taken = refl

abbrev arrived : List (List ℕ) → List (List ℕ) × Received
arrived [] = ([], nothing)
arrived (b ∷ l) = (l, datagram b)

-- A kernel that has its replies queued.
abbrev scripted : Kernel
scripted = record {
  World = List (List ℕ);
  port_create = λ name w. (w, some 1);
  port_bind = λ name w. (w, some 1);
  port_send = λ h b w. (w, ok);
  port_recv = λ h w. arrived w;
  yield = λ w. w;
}

abbrev registry : RegistryClient
registry = record { client = record { inbox_name = []; inbox = 1; seq = 0; budget = 3 }; rg = 1 }

abbrev fs_service : Service
fs_service = record { name = fs_name; path = []; capmask = 8; respawn = true }

-- The reply to the first request, with a status or a session identifier, or a count of 0.
abbrev status_reply : ℕ → List ℕ
status_reply n = 4 ∷ 0 ∷ 1 ∷ make_bytes 21 ++ n ∷ 0 ∷ 0 ∷ 0 ∷ []

supervise-boot_example :
    let (r', w', states) = boot scripted (fs_service ∷ []) registry (status_reply 9 ∷ []) in
    All
      (IsSane scripted)
      (supervise scripted (sweep_event ∷ restart_event fs_name ∷ []) states r' w').2
supervise-boot_example =
    supervise-boot scripted (sweep_event ∷ restart_event fs_name ∷ []) (fs_service ∷ []) registry
      (status_reply 9 ∷ [])

abbrev given_up_service : SvcState
given_up_service = record { svc = fs_service; sid = 0; fails = 5; spawned = false }

abbrev next_registry : RegistryClient
next_registry = record registry { client = record registry.client { seq = 1 } }

listed : list scripted registry (status_reply 0 ∷ []) ≡ (next_registry, [], reply [])
unfolding list request next_seq call poll budget_of frame_request decode_list
listed = refl

-- The service "fs" at "/fs" with the mask 8.
abbrev files : Service
files = record { name = fs_name; path = 47 ∷ 102 ∷ 115 ∷ []; capmask = 8; respawn = false }

files-IsService : IsService files
unfolding space_len
files-IsService = record {
  name_word = ((refl, (refl, tt)), refl);
  path_word = ((refl, (refl, (refl, tt))), refl);
  no_comment = refl;
  mask_range = omega arith;
}

parse_conf-conf_text_example : parse_conf (conf_text (files ∷ [])) ≡ some (files ∷ [])
parse_conf-conf_text_example = parse_conf-conf_text (files ∷ []) (files-IsService, tt)

-- "#c", a blank line and "a /a 0xF" with the default policy.
defaults :
    parse_conf (b'#' ∷ b'c' ∷ 10 ∷ 32 ∷ 10 ∷ b'a' ∷ 9 ∷ b'/' ∷ b'a' ∷ 32 ∷ b'0' ∷ b'x' ∷ b'F' ∷ [])
    ≡ some (record { name = b'a' ∷ []; path = b'/' ∷ b'a' ∷ []; capmask = 15; respawn = true } ∷ [])
unfolding parse_conf
defaults = refl

-- "a<NBSP>/b<U+2003>0x1<U+3000>": white space of two and of three bytes, behind the line too.
wide_spaces :
    parse_conf
      (b'a' ∷ 194 ∷ 160 ∷ b'/' ∷ b'b' ∷ 226 ∷ 128 ∷ 131 ∷ b'0' ∷ b'x' ∷ b'1' ∷ 227 ∷ 128 ∷ 128 ∷ [])
    ≡ some (record { name = b'a' ∷ []; path = b'/' ∷ b'b' ∷ []; capmask = 1; respawn = true } ∷ [])
unfolding parse_conf
wide_spaces = refl

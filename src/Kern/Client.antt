-- ===== src/Kern/Client.antt =====
-- Request and response over message ports (`Client` and `ReplyBook` of guests/lib/frame.go). The
-- kernel stands behind the interface `Kernel` of guests/lib/kern.go and is a parameter.
pub mod Poll
pub mod Book
use mkgo.Common.{
  ℕ, zero, suc, ◌+◌, ◌%◌, ◌≤◌, ◌<◌, List, [], ◌∷◌, length, ltb, ◌==◌, if◌then◌else◌, true, false,
  Option, none, some,
}
use mkgo.Kern.Frame.{get16, canonical_header_len, frame_request, frame_canonical}

-- `StatusOK`, `StatusErr` and `StatusWouldBlock`.
pub data Status : Type 0 where
  ok would_block failed : Status

-- The outcome of `PortRecv`: 0, negative, or a datagram copied to the buffer, which is never empty,
-- since `PortSend` refuses an empty one.
pub data Received : Type 0 where
  nothing : Received
  bad_handle : Received
  datagram : List ℕ → Received

-- The part of the interface that the clients call. A handle is a number, `none` is
-- `InvalidHandle`; a port name is the list of its bytes.
pub record Kernel : Type 1 where
  pub World : Type 0
  pub port_create : List ℕ → World → World × Option ℕ
  pub port_bind : List ℕ → World → World × Option ℕ
  pub port_send : ℕ → List ℕ → World → World × Status
  pub port_recv : ℕ → World → World × Received
  pub yield : World → World

-- The errors of guests/lib/frame.go.
pub data RpcError : Type 0 where
  no_reply short bad_port rejected : RpcError

pub data Reply {ℓ} (A : Type ℓ) : Type ℓ where
  reply : A → Reply A
  fail : RpcError → Reply A

abbrev pub default_recv_budget : ℕ
default_recv_budget = 200000

-- `Client` without the kernel. `budget` 0 stands for the default.
pub record Client : Type 0 where
  pub inbox_name : List ℕ
  pub inbox : ℕ
  pub seq : ℕ
  pub budget : ℕ

unfoldable pub budget_of : Client → ℕ
budget_of c = if ltb 0 c.budget then c.budget else default_recv_budget

-- `nextSeq`: a `uint16` that wraps.
unfoldable pub next_seq : Client → Client
next_seq c = record c { seq = (c.seq + 1) % 65536 }

module _ (k : Kernel) where
  open k use {World, port_bind, port_send, port_recv, yield}

  -- One round of the polling loop, on what `PortRecv` returned: `rest` is the rest of the loop.
  abbrev pub on_received :
      Received → ℕ → World → (World → World × Reply (List ℕ)) → World × Reply (List ℕ)
  on_received nothing want w rest = rest (yield w)
  on_received bad_handle want w rest = (w, fail bad_port)
  on_received (datagram b) want w rest =
      if ltb (length b) canonical_header_len
      then (w, fail short)
      else elim (get16 b 2 == want) [ true ↦ (w, reply b) | false ↦ rest w ]

  -- The loop of `Call` and `recvMatch`: at most `budget` receives on the port `h`.
  unfoldable pub poll : ℕ → ℕ → ℕ → World → World × Reply (List ℕ)
  poll zero h want w = (w, fail no_reply)
  poll (suc budget) h want w =
      let (w', r) = port_recv h w in on_received r want w' (λ v. poll budget h want v)

  abbrev pub after_send : Status → World → (World → World × Reply (List ℕ)) → World × Reply (List ℕ)
  after_send failed w next = (w, fail bad_port)
  after_send _ w next = next w

  -- `Call`: the reply arrives on the handle that the request was sent on.
  unfoldable pub call : Client → ℕ → List ℕ → World → World × Reply (List ℕ)
  call c h req w =
      let (w', s) = port_send h req w in after_send s w' (λ v. poll (budget_of c) h (get16 req 2) v)

  -- `Request`: the client with its next sequence number, and the outcome.
  unfoldable pub request : Client → ℕ → ℕ → List ℕ → World → Client × World × Reply (List ℕ)
  request c h op payload w =
      let c' = next_seq c in
      let (w', r) = call c' h (frame_request op c'.seq payload) w in (c', w', r)

  -- `InboxRequest`: the reply arrives on the client's own port.
  unfoldable pub inbox_request : Client → ℕ → ℕ → List ℕ → World → Client × World × Reply (List ℕ)
  inbox_request c h op payload w =
      let c' = next_seq c in
      let (w', s) = port_send h (frame_canonical op c'.seq c'.inbox_name payload) w in
      let (w'', r) = after_send s w' (λ v. poll (budget_of c') c'.inbox c'.seq v) in (c', w'', r)

-- ===== src/Net/Tcp/Stack.antt =====
-- `TCPStack` of services/net/tcp.go: the connections of a host by local port. A call runs with the
-- stack's and the connection's lock held, so calls are taken one after another.
pub mod Laws
use mkgo.Common.{
  ℕ, zero, suc, ◌+◌, ◌-◌, ◌%◌, List, [], ltb, ◌==◌, ◌&&◌, if◌then◌else◌, Bool, true, false, not,
  Option, none, some,
}
use mkgo.Net.Base.{Result, ok, err, Ip4, zero_ip4}
use mkgo.Net.Ip.{Ip4Packet}
use mkgo.Net.Tcp.Segment.{TcpSegment, parse_tcp, tcp_syn, tcp_ack, has}
use mkgo.Net.Tcp.Conn
use mkgo.Net.Tcp.Conn.{TcpConn, TcpState}

pub record TcpStack : Type 0 where
  pub conns : ℕ → Option TcpConn
  pub next_ephemeral : ℕ

abbrev pub update : (ℕ → Option TcpConn) → ℕ → Option TcpConn → ℕ → Option TcpConn
update f k v j = if k == j then v else f j

abbrev pub new_tcp_stack : TcpStack
new_tcp_stack = record { conns = λ _. none; next_ephemeral = 49152 }

-- The zero value of `TCPConn`, in a state of its own.
abbrev pub fresh_conn : TcpState → TcpConn
fresh_conn s = record {
  local_ip = zero_ip4;
  local_port = 0;
  remote_ip = zero_ip4;
  remote_port = 0;
  state = s;
  snd_una = 0;
  snd_nxt = 0;
  rcv_nxt = 0;
  fin_seq = 0;
  fin_sent = false;
  fin_pending = false;
  snd_buf = [];
  rcv_buf = [];
  in_flight = [];
  fin_acked_their_fin = false;
  listener = none;
  error = none;
  sent = [];
}

abbrev pub is_listen : TcpState → Bool
is_listen Conn.listen = true
is_listen _ = false

-- The half-open connection is bound to its peer before the handshake goes on.
unfoldable pub bind_peer : Ip4 → TcpSegment → TcpConn → TcpConn
bind_peer src seg c =
    if is_listen c.state && has seg.flags tcp_syn && not (has seg.flags tcp_ack)
    then record c { remote_ip = src; remote_port = seg.src_port }
    else c

abbrev pub dispatch : Option TcpConn → Ip4 → TcpSegment → TcpStack → TcpStack
dispatch none src seg t = t
dispatch (some c) src seg t = record t {
  conns = update t.conns seg.dst_port (some (Conn.handle seg (bind_peer src seg c)));
}

abbrev pub handle_parsed : Result TcpSegment → Ip4 → TcpStack → TcpStack
handle_parsed (err e) src t = t
handle_parsed (ok seg) src t = dispatch (t.conns seg.dst_port) src seg t

-- `TCPStack.handle`.
unfoldable pub handle : Ip4Packet → TcpStack → TcpStack
handle pkt t = handle_parsed (parse_tcp pkt.payload) pkt.src t

abbrev pub is_none : Option TcpConn → Bool
is_none none = true
is_none (some c) = false

abbrev pub listening : ℕ → TcpConn
listening port = record (fresh_conn Conn.listen) { local_port = port; listener = some 0 }

-- `Listen`; `false` is "port in use".
unfoldable pub listen : ℕ → TcpStack → TcpStack × Bool
listen port t =
    if is_none (t.conns port)
    then (record t { conns = update t.conns port (some (listening port)) }, true)
    else (t, false)

-- The endless loop of `ephemeral`: the port and the next one to try, both `uint16`. After 65536
-- rounds every port was tried, and the loop would go on for ever: `none`.
unfoldable pub ephemeral_loop : ℕ → ℕ → (ℕ → Option TcpConn) → Option (ℕ × ℕ)
ephemeral_loop zero p conns = none
ephemeral_loop (suc fuel) p conns =
    let next = (p + 1) % 65536 in
    let rest = ephemeral_loop fuel next conns in if is_none (conns p) then some (p, next) else rest

unfoldable pub ephemeral : TcpStack → Option (ℕ × ℕ)
ephemeral t = ephemeral_loop 65536 t.next_ephemeral t.conns

-- The connection that `Dial` enters at the port `port`, with its SYN sent.
unfoldable pub dialed : Ip4 → ℕ → Ip4 → ℕ → TcpConn
dialed laddr port raddr rport = Conn.send_locked tcp_syn [] (record (fresh_conn Conn.syn_sent) {
  local_ip = laddr;
  local_port = port;
  remote_ip = raddr;
  remote_port = rport;
  snd_una = 1000;
  snd_nxt = 1000;
})

-- `Dial`: the stack and the local port; `none` where `ephemeral` does not return.
unfoldable pub dial : Ip4 → Ip4 → ℕ → TcpStack → Option (TcpStack × ℕ)
dial laddr raddr rport t = elim (ephemeral t) [
  | none ↦ none
  | some (port, next) ↦ some (
    record {
      conns = update t.conns port (some (dialed laddr port raddr rport));
      next_ephemeral = next;
    },
    port,
  )
]

-- `Accept`: an entry of the listener's channel, if there is one.
unfoldable pub accept : TcpConn → TcpConn × Bool
accept c = elim c.listener [
  | none ↦ (c, false)
  | some n ↦ if ltb 0 n then (record c { listener = some (n - 1) }, true) else (c, false)
]

-- `Pending`.
unfoldable pub pending : TcpConn → Bool
pending c = elim c.listener [ none ↦ false | some n ↦ ltb 0 n ]

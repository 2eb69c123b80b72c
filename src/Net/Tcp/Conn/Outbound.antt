-- ===== src/Net/Tcp/Conn/Outbound.antt =====
-- The state of a connection and its sending side: `Recv`, `Err`, `sendLocked`, `Write`,
-- `flushLocked`, `Close` and `trySendFinLocked` of services/net/tcp.go.
use mkgo.Common.{
  ℕ, zero, suc, ◌+◌, ◌-◌, List, [], ◌∷◌, ◌++◌, length, take, drop, ltb, ◌&&◌, ◌||◌, if◌then◌else◌,
  bit_or, min, Bool, true, false, not, Option, none, some,
}
use mkgo.Net.Base.{Ip4}
use mkgo.Net.Tcp.Segment.{TcpSegment, tcp_fin, tcp_syn, tcp_ack, add32, has}

abbrev pub tcp_window_cap : ℕ
tcp_window_cap = 1024

abbrev pub tcp_max_seg : ℕ
tcp_max_seg = 512

pub data TcpState : Type 0 where
  closed listen syn_sent syn_rcvd established fin_wait close_wait last_ack : TcpState

pub data ConnError : Type 0 where
  conn_reset remote_closed err_closed : ConnError

-- `listener` stands for the field `l`: `some n` is a listener whose accept channel holds `n`
-- entries. A listener has one connection, so each entry is this connection.
pub record TcpConn : Type 0 where
  pub local_ip : Ip4
  pub local_port : ℕ
  pub remote_ip : Ip4
  pub remote_port : ℕ
  pub state : TcpState
  pub snd_una : ℕ
  pub snd_nxt : ℕ
  pub rcv_nxt : ℕ
  pub fin_seq : ℕ
  pub fin_sent : Bool
  pub fin_pending : Bool
  pub snd_buf : List ℕ
  pub rcv_buf : List ℕ
  pub in_flight : List ℕ
  pub fin_acked_their_fin : Bool
  pub listener : Option ℕ
  pub error : Option ConnError
  pub sent : List (Ip4 × TcpSegment)

abbrev pub is_established : TcpState → Bool
is_established established = true
is_established _ = false

abbrev pub is_syn_sent : TcpState → Bool
is_syn_sent syn_sent = true
is_syn_sent _ = false

-- `c.state != stateClosed && c.state != stateListen`.
abbrev pub is_open : TcpState → Bool
is_open closed = false
is_open listen = false
is_open _ = true

abbrev pub is_empty {ℓ} : {A : Type ℓ} → List A → Bool
is_empty [] = true
is_empty (x ∷ xs) = false

-- `Recv` with a buffer of `n` bytes: the connection and the bytes copied.
unfoldable pub recv : ℕ → TcpConn → TcpConn × List ℕ
recv n c = (record c { rcv_buf = drop n c.rcv_buf }, take n c.rcv_buf)

-- `Err`.
unfoldable pub err_of : TcpConn → Option ConnError
err_of c = if not (is_empty c.rcv_buf) && drains c.error then none else c.error
  where
    drains : Option ConnError → Bool
    drains (some remote_closed) = true
    drains (some err_closed) = true
    drains _ = false

-- `sendLocked`. `1024 - length` stops at 0, as `maxInt` does.
unfoldable pub send_locked : ℕ → List ℕ → TcpConn → TcpConn
send_locked flags payload c =
    let acked = has flags tcp_ack || not (is_syn_sent c.state) in
    let seg : TcpSegment = record {
      src_port = c.local_port;
      dst_port = c.remote_port;
      seq = c.snd_nxt;
      ack = c.rcv_nxt;
      flags = if acked then bit_or flags tcp_ack else flags;
      window = tcp_window_cap - length c.in_flight;
      payload = payload;
    } in
    let moved = add32 c.snd_nxt (length payload) in
    let fin = has flags tcp_fin in
    record c {
      snd_nxt = if has flags (tcp_syn + tcp_fin) then add32 moved 1 else moved;
      fin_seq = if fin then c.snd_nxt else c.fin_seq;
      fin_sent = if fin then true else c.fin_sent;
      in_flight = c.in_flight ++ payload;
      sent = c.sent ++ (c.remote_ip, seg) ∷ [];
    }

-- The loop test of `flushLocked`.
abbrev pub can_send : TcpConn → Bool
can_send c =
    is_established c.state && not (is_empty c.snd_buf) && ltb (length c.in_flight) tcp_window_cap

-- `n` of the loop body.
abbrev pub chunk : TcpConn → ℕ
chunk c =
    let n = min tcp_max_seg (length c.snd_buf) in
    let room = tcp_window_cap - length c.in_flight in if ltb room n then room else n

-- The loop body of `flushLocked`.
unfoldable pub send_chunk : TcpConn → TcpConn
send_chunk c =
    send_locked 0 (take (chunk c) c.snd_buf) (record c { snd_buf = drop (chunk c) c.snd_buf })

-- Every round takes a byte at least, so `length snd_buf` rounds reach the end of the loop
-- (`flush_done`).
unfoldable pub flush_loop : ℕ → TcpConn → TcpConn
flush_loop zero c = c
flush_loop (suc fuel) c = elim (can_send c) [ true ↦ flush_loop fuel (send_chunk c) | false ↦ c ]

unfoldable pub flush : TcpConn → TcpConn
flush c = flush_loop (length c.snd_buf) c

-- `Write`: the connection and `ErrClosed` or the number of bytes queued.
unfoldable pub write : List ℕ → TcpConn → TcpConn × Option ℕ
write bytes c =
    if not (is_established c.state) || c.fin_pending
    then (c, none)
    else (flush (record c { snd_buf = c.snd_buf ++ bytes }), some (length bytes))

-- The switch of `trySendFinLocked`.
unfoldable pub send_fin : TcpState → TcpConn → TcpConn
send_fin established c = send_locked tcp_fin [] (record c { state = fin_wait })
send_fin close_wait c = send_locked tcp_fin [] (record c { state = last_ack })
send_fin _ c = c

unfoldable pub try_send_fin : TcpConn → TcpConn
try_send_fin c =
    if not c.fin_pending || not (is_empty c.snd_buf) || not (is_empty c.in_flight)
    then c
    else send_fin c.state c

-- `Close`, by the state it switches on; `false` is `ErrClosed`.
unfoldable pub close_in : TcpState → TcpConn → TcpConn × Bool
close_in established c = (try_send_fin (record (flush c) { fin_pending = true }), true)
close_in close_wait c = (try_send_fin (record c { fin_pending = true }), true)
close_in closed c = (c, true)
close_in _ c = (c, false)

unfoldable pub close : TcpConn → TcpConn × Bool
unfolding close_in
close c = close_in c.state c

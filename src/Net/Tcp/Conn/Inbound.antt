-- ===== src/Net/Tcp/Conn/Inbound.antt =====
-- `TCPConn.handle` of services/net/tcp.go, by the states that it switches on.
use mkgo.Common.{
  ℕ, ◌+◌, [], ◌++◌, length, drop, ltb, leb, ◌==◌, ◌&&◌, ◌||◌, if◌then◌else◌, Bool, true, not,
  Option, none, some,
}
use mkgo.Net.Tcp.Segment.{
  TcpSegment, tcp_fin, tcp_syn, tcp_rst, tcp_ack, add32, sub32, seq_gt, seq_ge, has,
}
use mkgo.Net.Tcp.Conn.Outbound.{
  TcpState, listen, syn_sent, syn_rcvd, established, fin_wait, close_wait, last_ack, closed,
  conn_reset, remote_closed, err_closed, TcpConn, is_established, is_open, is_empty, send_locked,
  flush, try_send_fin,
}

-- The cumulative acknowledgement part of `handle`.
unfoldable pub ack_moves : TcpSegment → TcpConn → Bool
ack_moves seg c =
    has seg.flags tcp_ack
    && seq_ge seg.ack c.snd_una
    && seq_gt seg.ack c.snd_una
    && seq_ge c.snd_nxt seg.ack

unfoldable pub take_ack : TcpSegment → TcpConn → TcpConn
take_ack seg c =
    let acked = sub32 seg.ack c.snd_una in
    let c' = record c {
      in_flight = if leb (length c.in_flight) acked then [] else drop acked c.in_flight;
      snd_una = seg.ack;
    } in
    if ltb 0 acked then try_send_fin (if is_established c.state then flush c' else c') else c

unfoldable pub ack_step : TcpSegment → TcpConn → TcpConn
ack_step seg c = if ack_moves seg c then take_ack seg c else c

-- `len(seg.Payload) > 0 && seg.Seq == c.rcvNXT` and what `handle` does then, in three places.
unfoldable pub take_payload : TcpSegment → TcpConn → TcpConn
take_payload seg c =
    if not (is_empty seg.payload) && seg.seq == c.rcv_nxt
    then send_locked tcp_ack [] (record c {
      rcv_buf = c.rcv_buf ++ seg.payload;
      rcv_nxt = add32 c.rcv_nxt (length seg.payload);
    })
    else c

-- `seg.Flags&TCPFin != 0 && seg.Seq+uint32(len(seg.Payload)) == c.rcvNXT`.
abbrev pub fin_in_order : TcpSegment → TcpConn → Bool
fin_in_order seg c = has seg.flags tcp_fin && add32 seg.seq (length seg.payload) == c.rcv_nxt

-- The acknowledgement of the peer's FIN.
unfoldable pub ack_fin : TcpConn → TcpConn
ack_fin c = send_locked tcp_ack [] (record c { rcv_nxt = add32 c.rcv_nxt 1 })

-- `case stateListen`.
unfoldable pub on_listen : TcpSegment → TcpConn → TcpConn
on_listen seg c =
    if has seg.flags tcp_syn && not (has seg.flags tcp_ack)
    then send_locked (tcp_syn + tcp_ack) []
        (record c { rcv_nxt = add32 seg.seq 1; state = syn_rcvd })
    else c

-- `case stateSynSent`.
unfoldable pub on_syn_sent : TcpSegment → TcpConn → TcpConn
on_syn_sent seg c =
    if has seg.flags tcp_syn && has seg.flags tcp_ack
    then flush (
        send_locked tcp_ack [] (record c {
          rcv_nxt = add32 seg.seq 1;
          snd_una = seg.ack;
          in_flight = [];
          state = established;
        }))
    else c

-- The non-blocking send on the listener's channel of 16.
abbrev pub enqueue : Option ℕ → Option ℕ
enqueue none = none
enqueue (some n) = if ltb n 16 then some (n + 1) else some n

-- `case stateSynRcvd`.
unfoldable pub on_syn_rcvd : TcpSegment → TcpConn → TcpConn
on_syn_rcvd seg c =
    if has seg.flags tcp_ack
    then record c { state = established; listener = enqueue c.listener }
    else c

-- `case stateEstablished`.
unfoldable pub on_established : TcpSegment → TcpConn → TcpConn
on_established seg c =
    let d = take_payload seg c in
    if fin_in_order seg d
    then record (ack_fin d) { state = close_wait; error = some remote_closed }
    else d

-- The end of `case stateFinWait`.
unfoldable pub finish_close : TcpSegment → TcpConn → TcpConn
finish_close seg c =
    let fin_acked = not c.fin_sent || seq_ge c.snd_una (add32 c.fin_seq 1) in
    let their_fin_seen = has seg.flags tcp_fin || c.fin_acked_their_fin in
    let c' = if has seg.flags tcp_fin then record c { fin_acked_their_fin = true } else c in
    if fin_acked && their_fin_seen
    then record c' { state = closed; error = some err_closed }
    else c'

unfoldable pub on_fin_wait : TcpSegment → TcpConn → TcpConn
unfolding finish_close
on_fin_wait seg c =
    let d = take_payload seg c in finish_close seg (if fin_in_order seg d then ack_fin d else d)

-- `case stateLastAck`.
unfoldable pub on_last_ack : TcpSegment → TcpConn → TcpConn
on_last_ack seg c =
    if has seg.flags tcp_ack && c.fin_sent && seq_ge c.snd_una (add32 c.fin_seq 1)
    then record c { state = closed; error = some err_closed }
    else c

-- The switch of `handle`.
unfoldable pub on_state : TcpState → TcpSegment → TcpConn → TcpConn
unfolding on_listen on_syn_sent on_syn_rcvd on_established on_fin_wait on_last_ack
on_state listen seg c = on_listen seg c
on_state syn_sent seg c = on_syn_sent seg c
on_state syn_rcvd seg c = on_syn_rcvd seg c
on_state established seg c = on_established seg c
on_state fin_wait seg c = on_fin_wait seg c
on_state last_ack seg c = on_last_ack seg c
on_state _ seg c = c

-- The delivery after the switch.
unfoldable pub deliver_late : TcpSegment → TcpConn → TcpConn
deliver_late seg c = if is_established c.state then take_payload seg c else c

abbrev pub switch : TcpSegment → TcpConn → TcpConn
switch seg c = on_state c.state seg c

unfoldable pub handle : TcpSegment → TcpConn → TcpConn
handle seg c =
    if has seg.flags tcp_rst && is_open c.state
    then record c { state = closed; error = some conn_reset }
    else deliver_late seg (switch seg (ack_step seg c))

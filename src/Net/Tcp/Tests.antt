-- ===== src/Net/Tcp/Tests.antt =====
-- The theorems on connections, segments and ports at concrete values.
use mkgo.Common.{◌≡◌, refl, arith, true, false, List, [], ◌∷◌, ◌++◌, some}
use mkgo.Net.Base.{Ip4, IsIp4, ok}
use mkgo.Net.Tcp.Segment.{TcpSegment, parse_tcp, build_tcp, sum_segment, seq_gt, add32}
use mkgo.Net.Tcp.Segment.RoundTrip.{IsTcp, parse_tcp-sum_segment, seq_gt-add32}
use mkgo.Net.Tcp.Conn.{TcpConn, established, last_ack, can_send, flush, write, handle}
use mkgo.Net.Tcp.Conn.Flush.{flush_done}
use mkgo.Net.Tcp.Stream.{
  Call, write_call, close_call, recv_call, segment_call, run, written, accepted_bytes, written-run,
  data_sent,
}
use mkgo.Net.Tcp.Invariant.{Inv}
use mkgo.Net.Tcp.Invariant.Steps.{run-Inv}
use mkgo.Net.Tcp.Teardown.{fin_ends_stream}
use mkgo.Net.Tcp.Receive.{handle_out_of_order}
use mkgo.Net.Tcp.Receive.InOrder.{Received, handle_in_order, handle_retransmission}
use mkgo.Net.Tcp.Stack
use mkgo.Net.Tcp.Stack.{new_tcp_stack, fresh_conn, listening, ephemeral}
use mkgo.Net.Tcp.Stack.Laws
use mkgo.Net.Tcp.Stack.Laws.{ephemeral_total, conns-Inv}
use mkgo.Net.Tcp.Peers.{handshake, ack_heard, syn_ack_heard, write-reaches_peer, data_segment}

abbrev host_a : Ip4
host_a = record { a0 = 10; a1 = 0; a2 = 2; a3 = 15 }

abbrev host_b : Ip4
host_b = record { a0 = 10; a1 = 0; a2 = 2; a3 = 2 }

host_a-IsIp4 : IsIp4 host_a
host_a-IsIp4 = record { b0 = omega arith; b1 = omega arith; b2 = omega arith; b3 = omega arith }

host_b-IsIp4 : IsIp4 host_b
host_b-IsIp4 = record { b0 = omega arith; b1 = omega arith; b2 = omega arith; b3 = omega arith }

-- An established connection and its peer.
abbrev client : TcpConn
client = record (fresh_conn established) {
  local_ip = host_a;
  local_port = 49152;
  remote_ip = host_b;
  remote_port = 80;
  snd_una = 101;
  snd_nxt = 101;
  rcv_nxt = 501;
}

abbrev server : TcpConn
server = record (fresh_conn established) {
  local_ip = host_b;
  local_port = 80;
  remote_ip = host_a;
  remote_port = 49152;
  snd_una = 501;
  snd_nxt = 501;
  rcv_nxt = 101;
}

-- Two bytes from the client, with a FIN.
abbrev segment : TcpSegment
segment = record {
  src_port = 49152;
  dst_port = 80;
  seq = 101;
  ack = 501;
  flags = 17;
  window = 1024;
  payload = 104 ∷ 105 ∷ [];
}

segment-IsTcp : IsTcp segment
segment-IsTcp = record {
  src_word = omega arith;
  dst_word = omega arith;
  seq_word = omega arith;
  ack_word = omega arith;
  flag_bits = omega arith;
  window_word = omega arith;
}

client-Inv : Inv client
client-Inv = ground arith

-- The server after its own FIN.
abbrev leaving : TcpConn
leaving = record server { state = last_ack; fin_sent = true; fin_pending = true }

leaving-Inv : Inv leaving
leaving-Inv = ground arith

abbrev calls : List Call
calls = write_call (1 ∷ 2 ∷ []) ∷ segment_call segment ∷ close_call ∷ recv_call 4 ∷ []

written-run_example : written (run calls client) ≡ written client ++ accepted_bytes calls client
written-run_example = written-run calls client

run-Inv_example : Inv (run calls client)
run-Inv_example = run-Inv calls client client-Inv

fin_ends_stream_example :
    (accepted_bytes calls leaving ≡ [])
    × (data_sent (run calls leaving).sent ≡ data_sent leaving.sent)
fin_ends_stream_example = fin_ends_stream calls leaving leaving-Inv refl

handle_in_order_example : Received segment server (handle segment server)
handle_in_order_example = handle_in_order segment server refl refl refl (omega arith) (omega arith)

handle_retransmission_example :
    (handle segment (handle segment server)).rcv_buf ≡ server.rcv_buf ++ segment.payload
handle_retransmission_example =
    handle_retransmission segment server refl refl refl (omega arith) (omega arith) (omega arith)

handle_out_of_order_example : (handle segment client).rcv_buf ≡ client.rcv_buf
handle_out_of_order_example = handle_out_of_order segment client (omega arith) (λ e. omega arith)

flush_done_example : can_send (flush (record client { snd_buf = 1 ∷ 2 ∷ [] })) ≡ false
flush_done_example = flush_done (record client { snd_buf = 1 ∷ 2 ∷ [] })

parse_tcp-sum_segment_example :
    parse_tcp (sum_segment host_a host_b (build_tcp segment)) ≡ ok segment
parse_tcp-sum_segment_example = parse_tcp-sum_segment segment host_a host_b segment-IsTcp

seq_gt-add32_example : seq_gt (add32 4294967290 10) (add32 4294967290 3) ≡ true
seq_gt-add32_example = seq_gt-add32 4294967290 10 3 (omega arith) (omega arith) (omega arith)

listened : (Laws.run (Laws.listen_op 80 ∷ []) new_tcp_stack).conns 80 ≡ some (listening 80)
unfolding Laws.run Laws.step Stack.listen
listened = refl

conns-Inv_example : Inv (listening 80)
conns-Inv_example = conns-Inv (Laws.listen_op 80 ∷ []) 80 (listening 80) listened

handshake_example :
    let c = syn_ack_heard host_a 49152 host_b 80 in
    let s = ack_heard host_a 49152 host_b 80 in
    (c.state ≡ established)
    × (s.state ≡ established)
    × (s.remote_ip ≡ host_a)
    × (s.remote_port ≡ 49152)
    × (s.local_port ≡ 80)
    × (c.remote_ip ≡ host_b)
    × (c.remote_port ≡ 80)
    × (c.local_ip ≡ host_a)
    × (c.local_port ≡ 49152)
    × (s.rcv_nxt ≡ c.snd_nxt)
    × (c.rcv_nxt ≡ s.snd_nxt)
    × (c.snd_una ≡ c.snd_nxt)
    × (s.snd_una ≡ s.snd_nxt)
    × (s.listener ≡ some 1)
handshake_example = handshake host_a host_b 49152 80

write-reaches_peer_example :
    let c' = (write (1 ∷ 2 ∷ []) client).0 in
    let s' = handle (data_segment client (1 ∷ 2 ∷ [])) server in
    (c'.sent ≡ client.sent ++ (host_b, data_segment client (1 ∷ 2 ∷ [])) ∷ [])
    × (s'.rcv_buf ≡ server.rcv_buf ++ 1 ∷ 2 ∷ [])
    × (s'.rcv_nxt ≡ c'.snd_nxt)
write-reaches_peer_example =
    write-reaches_peer (1 ∷ 2 ∷ []) client server refl refl refl (omega arith) (omega arith)
      (omega arith) refl refl (omega arith)

-- ===== src/Net/Tcp/Stack/Laws.antt =====
-- Ports are independent, an ephemeral port is found while one is free, and every connection of a
-- stack satisfies the invariant.
use mkgo.Common.{
  ℕ, zero, suc, ◌+◌, ◌-◌, ◌%◌, ◌<◌, ◌≡◌, refl, sym, ap, ◌∙◌, arith, List, [], ◌∷◌, ◌==◌, Bool-cases,
  inl, inr, Option, none, some, Option-cases,
}
use mathlib.Core.Option.{some-injective}
use mathlib.Core.Path.{subst}
use mkgo.Net.Base.{Result, ok, err, Ip4}
use mkgo.Net.Ip.{Ip4Packet}
use mkgo.Net.Tcp.Segment.{TcpSegment, parse_tcp}
use mkgo.Net.Tcp.Conn
use mkgo.Net.Tcp.Conn.{TcpConn}
use mkgo.Net.Tcp.Stream
use mkgo.Net.Tcp.Invariant.{Inv}
use mkgo.Net.Tcp.Invariant.Steps.{handle-Inv, step-Inv}
use mkgo.Net.Tcp.Stack.{
  TcpStack, new_tcp_stack, handle, handle_parsed, bind_peer, listen, listening, ephemeral,
  ephemeral_loop, dial, dialed, update, is_none, accept,
}

-- Distance from `p` up to `i`, around the 65536 ports.
abbrev distance : ℕ → ℕ → ℕ
distance p i = (i + 65536 - p) % 65536

none≢some : {c : TcpConn} → none ≡ some c → ⊥
none≢some e = cc

closer :
    (p i fuel : ℕ)
    → p < 65536
    → i < 65536
    → distance p i < suc fuel
    → (p ≡ i → ⊥)
    → distance ((p + 1) % 65536) i < fuel
closer p i fuel hp hi d ne = grind arith

ephemeral_loop_finds :
    (fuel p i : ℕ) (conns : ℕ → Option TcpConn)
    → p < 65536
    → i < 65536
    → distance p i < fuel
    → conns i ≡ none
    → (q : ℕ) × (next : ℕ) × (ephemeral_loop fuel p conns ≡ some (q, next))
      × (q < 65536)
      × (next < 65536)
      × (conns q ≡ none)
unfolding ephemeral_loop
ephemeral_loop_finds zero p i conns hp hi d e = absurd (omega arith)
ephemeral_loop_finds (suc fuel) p i conns hp hi d e = elim (Option-cases (conns p)) [
  | inl free ↦ (p, (p + 1) % 65536, rw free refl, hp, omega arith, free)
  | inr (c, taken) ↦ rw taken (
      ephemeral_loop_finds fuel ((p + 1) % 65536) i conns (omega arith) hi
        (closer p i fuel hp hi d (λ same. none≢some (sym e ∙ (ap conns (sym same) ∙ taken)))) e)
]

-- A port that is free is found: `ephemeral` returns a free port whenever there is one.
pub ephemeral_total :
    (t : TcpStack) (i : ℕ)
    → t.next_ephemeral < 65536
    → i < 65536
    → t.conns i ≡ none
    → (q : ℕ) × (next : ℕ) × (ephemeral t ≡ some (q, next))
      × (q < 65536)
      × (next < 65536)
      × (t.conns q ≡ none)
unfolding ephemeral
ephemeral_total t i h hi e =
    ephemeral_loop_finds 65536 t.next_ephemeral i t.conns h hi (omega arith) e

-- Every connection of the stack satisfies the invariant.
AllInv : TcpStack → Type 0
AllInv t = (p : ℕ) (c : TcpConn) → t.conns p ≡ some c → Inv c

-- Entering a connection that satisfies it.
update-AllInv :
    (conns : ℕ → Option TcpConn) (k : ℕ) (d : TcpConn)
    → ((p : ℕ) (c : TcpConn) → conns p ≡ some c → Inv c)
    → Inv d
    → (p : ℕ) (c : TcpConn) → update conns k (some d) p ≡ some c
    → Inv c
update-AllInv conns k d h hd p c e = elim (Bool-cases (k == p)) [
  | inl same ↦ subst Inv (some-injective d c (rw same at e)) hd
  | inr other ↦ h p c (rw other at e)
]

bind_peer-Inv : (src : Ip4) (seg : TcpSegment) (c : TcpConn) → Inv c → Inv (bind_peer src seg c)
unfolding bind_peer
bind_peer-Inv src seg c h = ground (arith, h)

listening-Inv_fresh : (port : ℕ) → Inv (listening port)
listening-Inv_fresh port = ground arith

dialed-Inv :
    (laddr : Ip4) (port : ℕ) (raddr : Ip4) (rport : ℕ) → Inv (dialed laddr port raddr rport)
unfolding dialed Conn.send_locked
dialed-Inv laddr port raddr rport = ground arith

-- What a host can do with its TCP stack: `conn_op` is a call on the connection of a port.
pub data Op : Type 0 where
  listen_op : ℕ → Op
  dial_op : Ip4 → Ip4 → ℕ → Op
  packet_op : Ip4Packet → Op
  conn_op : ℕ → Stream.Call → Op
  accept_op : ℕ → Op

pub on_conn : (TcpConn → TcpConn) → ℕ → Option TcpConn → TcpStack → TcpStack
on_conn f p none t = t
on_conn f p (some c) t = record t { conns = update t.conns p (some (f c)) }

pub after_dial : Option (TcpStack × ℕ) → TcpStack → TcpStack
after_dial none t = t
after_dial (some (t', port)) t = t'

unfoldable pub step : Op → TcpStack → TcpStack
step (listen_op port) t = (listen port t).0
step (dial_op laddr raddr rport) t = after_dial (dial laddr raddr rport t) t
step (packet_op pkt) t = handle pkt t
step (conn_op p k) t = on_conn (Stream.step k) p (t.conns p) t
step (accept_op p) t = on_conn (λ c. (accept c).0) p (t.conns p) t

unfoldable pub run : List Op → TcpStack → TcpStack
run [] t = t
run (op ∷ ops) t = run ops (step op t)

on_conn-AllInv :
    (f : TcpConn → TcpConn) (p : ℕ) (t : TcpStack)
    → ((c : TcpConn) → Inv c → Inv (f c))
    → AllInv t
    → AllInv (on_conn f p (t.conns p) t)
unfolding on_conn AllInv
on_conn-AllInv f p t keep h = elim (Option-cases (t.conns p)) [
  | inl e ↦ rw e h
  | inr (c, e) ↦ rw e (update-AllInv t.conns p (f c) h (keep c (h p c e)))
]

accept-Inv : (c : TcpConn) → Inv c → Inv (accept c).0
unfolding accept
accept-Inv c h = ground (arith, h)

handle_parsed-AllInv :
    (r : Result TcpSegment) (src : Ip4) (t : TcpStack) → AllInv t → AllInv (handle_parsed r src t)
unfolding AllInv
handle_parsed-AllInv (err e) src t h = h
handle_parsed-AllInv (ok seg) src t h = elim (Option-cases (t.conns seg.dst_port)) [
  | inl e ↦ rw e h
  | inr (c, e) ↦ rw e (
      update-AllInv t.conns seg.dst_port (Conn.handle seg (bind_peer src seg c)) h
        (handle-Inv seg (bind_peer src seg c) (bind_peer-Inv src seg c (h seg.dst_port c e))))
]

listen-AllInv : (port : ℕ) (t : TcpStack) → AllInv t → AllInv (listen port t).0
unfolding listen AllInv
listen-AllInv port t h = elim (Bool-cases (is_none (t.conns port))) [
  | inl e ↦ rw e (update-AllInv t.conns port (listening port) h (listening-Inv_fresh port))
  | inr e ↦ rw e h
]

dial-AllInv :
    (laddr raddr : Ip4) (rport : ℕ) (t : TcpStack)
    → AllInv t
    → AllInv (after_dial (dial laddr raddr rport t) t)
unfolding dial after_dial AllInv
dial-AllInv laddr raddr rport t h = elim (Option-cases (ephemeral t)) [
  | inl e ↦ rw (e, dial) h
  | inr ((port, next), e) ↦
      rw (e, dial)
        (update-AllInv t.conns port (dialed laddr port raddr rport) h
          (dialed-Inv laddr port raddr rport))
]

step-AllInv : (op : Op) (t : TcpStack) → AllInv t → AllInv (step op t)
unfolding step handle
step-AllInv (listen_op port) t h = listen-AllInv port t h
step-AllInv (dial_op laddr raddr rport) t h = dial-AllInv laddr raddr rport t h
step-AllInv (packet_op pkt) t h = handle_parsed-AllInv (parse_tcp pkt.payload) pkt.src t h
step-AllInv (conn_op p k) t h = on_conn-AllInv (Stream.step k) p t (step-Inv k) h
step-AllInv (accept_op p) t h = on_conn-AllInv (λ c. (accept c).0) p t accept-Inv h

run-AllInv : (ops : List Op) (t : TcpStack) → AllInv t → AllInv (run ops t)
unfolding run
run-AllInv [] t h = h
run-AllInv (op ∷ ops) t h = run-AllInv ops (step op t) (step-AllInv op t h)

-- Every connection that a host ever has, by any sequence of listens, dials, packets, accepts and
-- calls on its connections from a new stack on, satisfies the connection invariant.
pub conns-Inv :
    (ops : List Op) (p : ℕ) (c : TcpConn) → (run ops new_tcp_stack).conns p ≡ some c → Inv c
unfolding AllInv
conns-Inv ops p c e = run-AllInv ops new_tcp_stack (λ q d f. absurd (none≢some f)) p c e

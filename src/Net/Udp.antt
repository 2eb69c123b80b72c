-- ===== src/Net/Udp.antt =====
-- UDP segments and the port demultiplexer (services/net/udp.go).
pub mod RoundTrip
pub mod Demux
use mkgo.Common.{
  ℕ, zero, suc, ◌+◌, ◌-◌, ◌%◌, List, [], ◌∷◌, ◌++◌, length, ltb, ◌==◌, ◌&&◌, ◌||◌, if◌then◌else◌,
  Option, none, some, Bool, true, false,
}
use mkgo.Common.Bytes.{copy_at, make_bytes, slice}
use mkgo.Net.Base.{Result, ok, err, short_frame, bad_udp, Ip4, ip4_eq, zero_ip4, be_put16, be_get16}
use mkgo.Net.Checksum.{transport_checksum}

abbrev pub udp_hdr_len : ℕ
udp_hdr_len = 8

pub record UdpDatagram : Type 0 where
  pub src_port : ℕ
  pub dst_port : ℕ
  pub payload : List ℕ  -- `Data`
  pub checksum_src : Ip4
  pub checksum_dst : Ip4

unfoldable pub parse_udp : List ℕ → Result UdpDatagram
parse_udp p =
    let total = be_get16 p 4 in
    if ltb (length p) udp_hdr_len
    then err short_frame
    else if ltb total udp_hdr_len || ltb (length p) total
    then err bad_udp
    else ok (record {
      src_port = be_get16 p 0;
      dst_port = be_get16 p 2;
      payload = slice 8 total p;
      checksum_src = zero_ip4;
      checksum_dst = zero_ip4;
    })

-- The checksum is skipped when both endpoints are the zero address.
unfoldable pub build_udp : UdpDatagram → List ℕ
build_udp d =
    let total = udp_hdr_len + length d.payload in
    let out = make_bytes total in
    let out = be_put16 0 d.src_port out in
    let out = be_put16 2 d.dst_port out in
    let out = be_put16 4 (total % 65536) out in
    let out = copy_at 8 d.payload out in
    if ip4_eq d.checksum_src zero_ip4 && ip4_eq d.checksum_dst zero_ip4
    then be_put16 6 0 out
    else be_put16 6 (transport_checksum d.checksum_src d.checksum_dst 17 out) out

-- The queues are shared by pointer: `queues` is the heap of them, `next` the first pointer that is
-- not in use, and `ports` the map of the demultiplexer. Locks are taken for whole operations.
pub record UdpDemux : Type 0 where
  pub queues : ℕ → List (List ℕ)
  pub next : ℕ
  pub ports : ℕ → Option ℕ

abbrev pub new_udp_demux : UdpDemux
new_udp_demux = record { queues = λ _. []; next = 0; ports = λ _. none }

abbrev pub update {ℓ} : {A : Type ℓ} → (ℕ → A) → ℕ → A → ℕ → A
update f k v j = if k == j then v else f j

-- `UDPQueue.push`.
unfoldable pub push : ℕ → List ℕ → UdpDemux → UdpDemux
push q bytes d = record d { queues = update d.queues q (d.queues q ++ bytes ∷ []) }

abbrev pub pop : List (List ℕ) → Option (List ℕ) × List (List ℕ)
pop [] = (none, [])
pop (x ∷ xs) = (some x, xs)

-- `UDPQueue.Recv`; `none` is `ok=false`.
unfoldable pub recv : ℕ → UdpDemux → UdpDemux × Option (List ℕ)
recv q d = let (x, rest) = pop (d.queues q) in (record d { queues = update d.queues q rest }, x)

abbrev pub is_taken : Option ℕ → Bool
is_taken none = false
is_taken (some q) = true

-- `for p := uint16(49152); p != 0; p++`, with `left` ports to go; port 0 stands for none found.
unfoldable pub free_port : ℕ → ℕ → (ℕ → Option ℕ) → ℕ
free_port zero p ports = 0
free_port (suc left) p ports =
    let rest = free_port left (p + 1) ports in if is_taken (ports p) then rest else p

-- The `q, ok := d.ports[port]` part of `Bind`.
unfoldable pub bind_port : ℕ → Option ℕ → UdpDemux → UdpDemux × ℕ × ℕ
bind_port port (some q) d = (d, q, port)
bind_port port none d = (
  record d {
    queues = update d.queues d.next [];
    next = d.next + 1;
    ports = update d.ports port (some d.next);
  },
  d.next,
  port,
)

-- `Bind`: the queue and the port that was bound.
unfoldable pub bind : ℕ → UdpDemux → UdpDemux × ℕ × ℕ
unfolding bind_port
bind port d =
    let port' = if port == 0 then free_port 16384 49152 d.ports else port in
    bind_port port' (d.ports port') d

unfoldable pub unbind : ℕ → UdpDemux → UdpDemux
unbind port d = record d { ports = update d.ports port none }

abbrev pub deliver : Option ℕ → List ℕ → UdpDemux → UdpDemux
deliver none bytes d = d
deliver (some q) bytes d = push q bytes d

abbrev pub handle_parsed : Result UdpDatagram → UdpDemux → UdpDemux
handle_parsed (err e) d = d
handle_parsed (ok dg) d = deliver (d.ports dg.dst_port) dg.payload d

-- `UDPDemux.handle` on the payload of an IPv4 packet.
unfoldable pub handle : List ℕ → UdpDemux → UdpDemux
unfolding push
handle payload d = handle_parsed (parse_udp payload) d

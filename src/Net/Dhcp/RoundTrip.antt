-- ===== src/Net/Dhcp/RoundTrip.antt =====
-- A request is read back.
use mkgo.Common.{
  ℕ, zero, suc, ◌+◌, ◌%◌, ◌≤◌, ◌<◌, ◌≡◌, ◌≢◌, refl, ap, ◌∙◌, arith, true, false, List, [], ◌∷◌,
  ◌++◌, length, length-append, length-take, take-length_append, drop-length_append, take, drop, ltb,
  ◌==◌, if◌then◌else◌, Bool-cases, inl, inr, ◌⊎◌,
}
use mkgo.Common.Bytes.{byte_at}
use mkgo.Net.Base.{Mac, Ip4, ip4_bytes, zero_ip4, be_get32, be32_back}
use mkgo.Net.Dhcp.{
  DhcpMessage, dhcp_header, dhcp_opt, opt_upto, server_opt, build_request, build_release, Parsed,
  message, with_option, parse_options, parse_dhcp, fixed_fields, is_zero, flag_broadcast,
  dhcp_magic,
}

-- The options are read to `r`, with as many rounds as there are bytes or more.
abbrev Decodes : List ℕ → DhcpMessage → Parsed → Type 0
Decodes l m r = (fuel : ℕ) → length l ≤ fuel → parse_options fuel l m ≡ r

end_option : (m : DhcpMessage) → Decodes (255 ∷ []) m (message m)
unfolding parse_options
end_option m zero h = absurd (omega arith)
end_option m (suc fuel) h = refl

-- One option, and the others.
next_option :
    (code : ℕ) (val rest : List ℕ) (m m' : DhcpMessage) (r : Parsed)
    → code ≢ 0
    → code ≢ 255
    → length val ≤ 255
    → with_option code val m ≡ message m'
    → Decodes rest m' r
    → Decodes (dhcp_opt code val ++ rest) m r
unfolding parse_options dhcp_opt
next_option code val rest m m' r pad end small e d zero h = absurd (omega arith)
next_option code val rest m m' r pad end small e d (suc fuel) h =
    let len : length val % 256 ≡ length val = omega arith in
    let total = length-append val rest in
    let no_pad : code == 0 ≡ false = ground arith in
    let no_end : code == 255 ≡ false = ground arith in
    let room : ltb (length (val ++ rest)) (length val) ≡ false = ground (arith, total) in
    rw (len, no_pad, no_end, room, take-length_append val rest, drop-length_append val rest, e)
      (d fuel (omega (arith, total)))

-- An option that the client does not use, cut to `most` bytes.
unused_option :
    (most code : ℕ) (s rest : List ℕ) (m : DhcpMessage) (r : Parsed)
    → most ≤ 255
    → code ≢ 0
    → code ≢ 255
    → ((val : List ℕ) → with_option code val m ≡ message m)
    → Decodes rest m r
    → Decodes (opt_upto most code s ++ rest) m r
unfolding opt_upto
unused_option most code [] rest m r cut pad end skip d = d
unused_option most code (c ∷ s) rest m r cut pad end skip d =
    next_option code (take most (c ∷ s)) rest m m r pad end
      (ground (arith, length-take most (c ∷ s))) (skip _) d

-- What the server option adds.
abbrev pub with_server : Ip4 → DhcpMessage → DhcpMessage
with_server server m =
    if is_zero server then m else record m { server_id = server; has_server = true }

named :
    (server : Ip4) (m : DhcpMessage)
    → with_option 54 (ip4_bytes server) m
      ≡ message (record m { server_id = server; has_server = true })
unfolding with_option
named server m = refl

server_option :
    (server : Ip4) (rest : List ℕ) (m : DhcpMessage) (r : Parsed)
    → Decodes rest (with_server server m) r
    → Decodes (server_opt server ++ rest) m r
unfolding server_opt
server_option server rest m r d = elim (Bool-cases (is_zero server)) [
  | inl unset ↦ rw unset (rw unset at d)
  | inr given ↦ rw given (
      next_option 54 (ip4_bytes server) rest m (record m { server_id = server; has_server = true })
        r (λ e. omega arith) (λ e. omega arith) (omega arith) (named server m) (rw given at d))
]

-- What the server reads.
abbrev pub request_message : Mac → ℕ → Ip4 → DhcpMessage
request_message mac xid server = with_server server (record {
  op = 1;
  xid = xid;
  flags = flag_broadcast;
  ciaddr = zero_ip4;
  yiaddr = zero_ip4;
  siaddr = zero_ip4;
  giaddr = zero_ip4;
  chaddr = mac;
  msg_type = 3;
  subnet_mask = zero_ip4;
  router = zero_ip4;
  dns = [];
  lease_time = 0;
  server_id = zero_ip4;
  has_mask = false;
  has_router = false;
  has_lease = false;
  has_server = false;
})

header_fields :
    (mac : Mac) (xid : ℕ) (l : List ℕ)
    → xid < 4294967296
    → record (fixed_fields (dhcp_header 1 xid mac flag_broadcast ++ l)) { msg_type = 3 }
      ≡ request_message mac xid zero_ip4
unfolding dhcp_header
header_fields mac xid l h = ap (λ (v : ℕ). request_message mac v zero_ip4) (be32_back xid h)

-- A list with the header in front has its length and its parts.
drop_header :
    (mac : Mac) (xid : ℕ) (l : List ℕ) → drop 240 (dhcp_header 1 xid mac flag_broadcast ++ l) ≡ l
unfolding dhcp_header
drop_header mac xid l = refl

length_header :
    (mac : Mac) (xid : ℕ) (l : List ℕ)
    → length (dhcp_header 1 xid mac flag_broadcast ++ l) ≡ length l + 240
unfolding dhcp_header
length_header mac xid l = omega arith

is_dhcp :
    (mac : Mac) (xid : ℕ) (l : List ℕ)
    → let b = dhcp_header 1 xid mac flag_broadcast ++ l in
      (be_get32 b 236 == dhcp_magic ≡ true) × (byte_at b 1 == 1 ≡ true) × (byte_at b 2 == 6 ≡ true)
unfolding dhcp_header
is_dhcp mac xid l = (refl, refl, refl)

parse-header :
    (mac : Mac) (xid : ℕ) (l : List ℕ)
    → parse_dhcp (dhcp_header 1 xid mac flag_broadcast ++ l)
      ≡ parse_options (length l) l (fixed_fields (dhcp_header 1 xid mac flag_broadcast ++ l))
unfolding parse_dhcp
parse-header mac xid l =
    let (magic, ether, len) = is_dhcp mac xid l in
    let enough : ltb (length (dhcp_header 1 xid mac flag_broadcast ++ l)) 240 ≡ false =
      ground (arith, length_header mac xid l) in
    rw (enough, magic, ether, len, drop_header mac xid l) refl

ignored :
    (code : ℕ) (val : List ℕ) (m : DhcpMessage)
    → code ≡ 50 ⊎ (code ≡ 12) ⊎ (code ≡ 55)
    → with_option code val m ≡ message m
unfolding with_option
ignored code val m h = ground arith

typed : (m : DhcpMessage) → with_option 53 (3 ∷ []) m ≡ message (record m { msg_type = 3 })
unfolding with_option
typed m = refl

-- A request is read back by `ParseDHCP`, whatever the hostname and the list of parameters: as a
-- broadcast request with the transaction's number, of fewer than 2 ^ 32, and the client's hardware
-- address, without addresses of its own, and with the server's identifier exactly when the server's
-- address is not zero.
pub parse_dhcp-build_request :
    (mac : Mac) (xid : ℕ) (offered server : Ip4) (hostname params : List ℕ)
    → xid < 4294967296
    → parse_dhcp (build_request mac xid offered server hostname params)
      ≡ message (request_message mac xid server)
unfolding build_request
parse_dhcp-build_request mac xid offered server hostname params h =
    let tail = opt_upto 63 12 hostname ++ (opt_upto 255 55 params ++ 255 ∷ []) in
    let m = request_message mac xid zero_ip4 in
    let r = with_server server m in
    let behind = server_option server tail m (message r) (
      unused_option 63 12 hostname _ r (message r) (omega arith) (λ e. omega arith)
        (λ e. omega arith) (λ v. ignored 12 v r (inr (inl refl)))
        (unused_option 255 55 params _ r (message r) (omega arith) (λ e. omega arith)
          (λ e. omega arith) (λ v. ignored 55 v r (inr (inr refl))) (end_option r))) in
    let options =
      dhcp_opt 53 (3 ∷ []) ++ (dhcp_opt 50 (ip4_bytes offered) ++ (server_opt server ++ tail)) in
    let m0 = fixed_fields (dhcp_header 1 xid mac flag_broadcast ++ options) in
    let read =
      next_option 53 (3 ∷ []) _ m0 m (message r) (λ e. omega arith) (λ e. omega arith) (omega arith)
        (typed m0 ∙ ap message (header_fields mac xid options h))
        (next_option 50 (ip4_bytes offered) _ m m (message r) (λ e. omega arith) (λ e. omega arith)
          (omega arith) (ignored 50 (ip4_bytes offered) m (inl refl)) behind) in
    parse-header mac xid options ∙ read (length options) (omega arith)

-- The message of a release is the same for every address.
pub build_release-address :
    (mac : Mac) (xid : ℕ) (a b server : Ip4)
    → build_release mac xid a server ≡ build_release mac xid b server
unfolding build_release
build_release-address mac xid a b server = refl

-- ===== src/Net/Dhcp.antt =====
-- The DHCP messages of services/net/dhcp.go.
pub mod RoundTrip
use mkgo.Common.{
  ℕ, zero, suc, ◌+◌, ◌-◌, ◌%◌, Bool, true, false, not, ◌&&◌, ◌||◌, List, [], ◌∷◌, ◌++◌, length,
  take, drop, ltb, leb, ◌==◌, if◌then◌else◌, Option, none, some,
}
use mkgo.Common.Bytes.{byte_at, copy_at, make_bytes}
use mkgo.Net.Base.{
  Mac, Ip4, mac_bytes, mac_at, ip4_bytes, ip4_at, ip4_eq, zero_ip4, be_put16, be_put32, be_get16,
  be_get32,
}

-- The errors of the parser.
pub data DhcpError : Type 0 where
  short bad_magic bad_htype truncated opt_len no_end : DhcpError

abbrev pub dhcp_min_len : ℕ
dhcp_min_len = 240

abbrev pub dhcp_magic : ℕ
dhcp_magic = 0x63825363

abbrev pub flag_broadcast : ℕ
flag_broadcast = 0x8000

pub record DhcpMessage : Type 0 where
  pub op : ℕ
  pub xid : ℕ
  pub flags : ℕ
  pub ciaddr : Ip4
  pub yiaddr : Ip4
  pub siaddr : Ip4
  pub giaddr : Ip4
  pub chaddr : Mac
  pub msg_type : ℕ
  pub subnet_mask : Ip4
  pub router : Ip4
  pub dns : List Ip4
  pub lease_time : ℕ
  pub server_id : Ip4
  pub has_mask : Bool
  pub has_router : Bool
  pub has_lease : Bool
  pub has_server : Bool

-- `IP4.IsZero`.
abbrev pub is_zero : Ip4 → Bool
is_zero ip = ip4_eq ip zero_ip4

-- `dhcpHeader`.
unfoldable pub dhcp_header : ℕ → ℕ → Mac → ℕ → List ℕ
dhcp_header op xid mac flags =
    let b = make_bytes dhcp_min_len in
    let b = copy_at 0 (op ∷ 1 ∷ 6 ∷ 0 ∷ []) b in
    let b = be_put32 4 xid b in
    let b = be_put16 8 flags b in let b = copy_at 28 (mac_bytes mac) b in be_put32 236 dhcp_magic b

-- `dhcpOpt`: what it appends.
unfoldable pub dhcp_opt : ℕ → List ℕ → List ℕ
dhcp_opt code val = code ∷ (length val % 256) ∷ val

-- The hostname and the parameter list, cut and left out when empty.
unfoldable pub opt_upto : ℕ → ℕ → List ℕ → List ℕ
unfolding dhcp_opt
opt_upto most code [] = []
opt_upto most code (c ∷ s) = dhcp_opt code (take most (c ∷ s))

-- `BuildDiscover`, `BuildRequest` and `BuildRelease`.
unfoldable pub build_discover : Mac → ℕ → List ℕ → List ℕ → List ℕ
unfolding dhcp_header dhcp_opt opt_upto
build_discover mac xid hostname params =
    dhcp_header 1 xid mac flag_broadcast
    ++ (dhcp_opt 53 (1 ∷ []) ++ (opt_upto 63 12 hostname ++ (opt_upto 255 55 params ++ 255 ∷ [])))

unfoldable pub server_opt : Ip4 → List ℕ
unfolding dhcp_opt
server_opt server = if is_zero server then [] else dhcp_opt 54 (ip4_bytes server)

unfoldable pub build_request : Mac → ℕ → Ip4 → Ip4 → List ℕ → List ℕ → List ℕ
unfolding dhcp_header dhcp_opt opt_upto server_opt
build_request mac xid offered server hostname params =
    dhcp_header 1 xid mac flag_broadcast
    ++ (dhcp_opt 53 (3 ∷ [])
        ++ (dhcp_opt 50 (ip4_bytes offered)
            ++ (server_opt server
                ++ (opt_upto 63 12 hostname ++ (opt_upto 255 55 params ++ 255 ∷ [])))))

-- The address to be released is not used.
unfoldable pub build_release : Mac → ℕ → Ip4 → Ip4 → List ℕ
unfolding dhcp_header dhcp_opt
build_release mac xid addr server =
    dhcp_header 1 xid mac 0
    ++ (dhcp_opt 53 (7 ∷ []) ++ (dhcp_opt 54 (ip4_bytes server) ++ 255 ∷ []))

-- What the parser returns.
pub data Parsed : Type 0 where
  message : DhcpMessage → Parsed
  refused : DhcpError → Parsed

-- The loop over the addresses of the resolvers.
unfoldable pub addresses : List ℕ → List Ip4
addresses (a ∷ b ∷ c ∷ d ∷ l) = record { a0 = a; a1 = b; a2 = c; a3 = d } ∷ addresses l
addresses _ = []

-- The switch on the code of an option.
unfoldable pub with_option : ℕ → List ℕ → DhcpMessage → Parsed
unfolding addresses
with_option code val m =
    let l = length val in
    if code == 53
    then if l == 1 then message (record m { msg_type = byte_at val 0 }) else refused opt_len
    else if code == 1
    then if l == 4
      then message (record m { subnet_mask = ip4_at val 0; has_mask = true })
      else refused opt_len
    else if code == 3
    then if leb 4 l
      then message (record m { router = ip4_at val 0; has_router = true })
      else message m
    else if code == 6
    then message (record m { dns = m.dns ++ addresses val })
    else if code == 51
    then if l == 4
      then message (record m { lease_time = be_get32 val 0; has_lease = true })
      else message m
    else if code == 54
    then if l == 4
      then message (record m { server_id = ip4_at val 0; has_server = true })
      else message m
    else message m

abbrev pub and_parse : Parsed → (DhcpMessage → Parsed) → Parsed
and_parse (message m) f = f m
and_parse (refused e) f = refused e

-- The loop over the options, with a round for each byte, of which each round takes one at least.
unfoldable pub parse_options : ℕ → List ℕ → DhcpMessage → Parsed
unfolding with_option
parse_options fuel [] m = refused no_end
parse_options zero (code ∷ l) m = refused no_end
parse_options (suc fuel) (code ∷ []) m =
    if code == 0
    then parse_options fuel [] m
    else if code == 255
    then message m
    else refused truncated
parse_options (suc fuel) (code ∷ n ∷ l) m =
    let padded = parse_options fuel (n ∷ l) m in
    let behind = and_parse (with_option code (take n l) m) (parse_options fuel (drop n l)) in
    if code == 0
    then padded
    else if code == 255
    then message m
    else if ltb (length l) n
    then refused truncated
    else behind

-- The fixed fields.
abbrev pub fixed_fields : List ℕ → DhcpMessage
fixed_fields b = record {
  op = byte_at b 0;
  xid = be_get32 b 4;
  flags = be_get16 b 8;
  ciaddr = ip4_at b 12;
  yiaddr = ip4_at b 16;
  siaddr = ip4_at b 20;
  giaddr = ip4_at b 24;
  chaddr = mac_at b 28;
  msg_type = 0;
  subnet_mask = zero_ip4;
  router = zero_ip4;
  dns = [];
  lease_time = 0;
  server_id = zero_ip4;
  has_mask = false;
  has_router = false;
  has_lease = false;
  has_server = false;
}

-- `ParseDHCP`.
unfoldable pub parse_dhcp : List ℕ → Parsed
unfolding parse_options
parse_dhcp b =
    if ltb (length b) dhcp_min_len
    then refused short
    else if not (be_get32 b 236 == dhcp_magic)
    then refused bad_magic
    else if not (byte_at b 1 == 1) || not (byte_at b 2 == 6)
    then refused bad_htype
    else parse_options (length (drop dhcp_min_len b)) (drop dhcp_min_len b) (fixed_fields b)

pub record Offer : Type 0 where
  pub address : Ip4
  pub netmask : Ip4
  pub gateway : Ip4
  pub resolvers : List Ip4
  pub lease : ℕ
  pub server : Ip4

-- `OfferFrom`.
unfoldable pub offer_from : DhcpMessage → Option Offer
offer_from m =
    if not (m.msg_type == 2) && not (m.msg_type == 5) || is_zero m.yiaddr
    then none
    else some (record {
      address = m.yiaddr;
      netmask = m.subnet_mask;
      gateway = m.router;
      resolvers = m.dns;
      lease = m.lease_time;
      server = m.server_id;
    })

-- ===== src/Packet.antt =====
-- server/src/dhcp_packet.h and server/src/dhcp_packet.c. A number of the raw packet is the number
-- that the host, which stores the low byte first, reads there.
pub mod Swap
pub mod RoundTrip
pub mod Accepted
use dhcpv4_server_with_gui_c.Prelude.{
  ℕ, ◌+◌, ◌*◌, ◌/◌, ◌%◌, Option, none, some, List, [], ◌==◌, if◌then◌else◌, replicate,
}
use dhcpv4_server_with_gui_c.Options.{DhcpOption, memcpy, read_u32, dhcp_option_retrieve}
use dhcpv4_server_with_gui_c.Codec.{
  Parsed, parsed, overrun, running, dhcp_option_parse, dhcp_options_serialize,
}

-- `dhcp_packet_t`
pub record DhcpPacket : Type 0 where
  pub opcode : ℕ
  pub htype : ℕ
  pub hlen : ℕ
  pub hops : ℕ
  pub xid : ℕ
  pub secs : ℕ
  pub flags : ℕ
  pub ciaddr : ℕ
  pub yiaddr : ℕ
  pub siaddr : ℕ
  pub giaddr : ℕ
  pub chaddr : List ℕ
  pub sname : List ℕ
  pub filename : List ℕ
  pub cookie : ℕ
  pub options : List ℕ

-- `dhcp_message_t`
pub record DhcpMessage : Type 0 where
  pub packet : DhcpPacket
  pub type : ℕ
  pub opcode : ℕ
  pub htype : ℕ
  pub hlen : ℕ
  pub hops : ℕ
  pub xid : ℕ
  pub secs : ℕ
  pub flags : ℕ
  pub ciaddr : ℕ
  pub yiaddr : ℕ
  pub siaddr : ℕ
  pub giaddr : ℕ
  pub chaddr : List ℕ
  pub sname : List ℕ
  pub filename : List ℕ
  pub cookie : ℕ
  pub dhcp_options : List DhcpOption
  pub time : ℕ

-- ntohl and htonl, ntohs and htons on such a host: the bytes in the other order
unfoldable pub swap_u32 : ℕ → ℕ
swap_u32 n = n % 256 * 16777216 + n / 256 % 256 * 65536 + n / 65536 % 256 * 256 + n / 16777216 % 256

unfoldable pub swap_u16 : ℕ → ℕ
swap_u16 n = n % 256 * 256 + n / 256 % 256

-- MAGIC_COOKIE
abbrev pub magic_cookie : ℕ
magic_cookie = 0x63825363

-- The part of dhcp_packet_parse before the test of the cookie.
unfoldable pub parse_header : DhcpMessage → DhcpMessage
unfolding swap_u32 swap_u16 memcpy
parse_header m =
    let p = m.packet in
    record m {
      opcode = p.opcode;
      htype = p.htype;
      hlen = p.hlen;
      hops = p.hops;
      xid = swap_u32 p.xid;
      secs = swap_u16 p.secs;
      flags = swap_u16 p.flags;
      ciaddr = swap_u32 p.ciaddr;
      yiaddr = swap_u32 p.yiaddr;
      siaddr = swap_u32 p.siaddr;
      giaddr = swap_u32 p.giaddr;
      chaddr = memcpy 16 p.chaddr m.chaddr;
      sname = memcpy 64 p.sname m.sname;
      filename = memcpy 128 p.filename m.filename;
      cookie = swap_u32 p.cookie;
    }

-- `accepted` is a return value of 0 and `rejected` one of -1, with the message after the call.
-- `crashed` and `hung` are what the parser of the options does.
pub data PacketResult : Type 0 where
  accepted rejected : DhcpMessage → PacketResult
  crashed hung : PacketResult

-- A message always has a list of options, which is emptied.
unfoldable pub dhcp_packet_parse : DhcpMessage → PacketResult
unfolding parse_header read_u32
dhcp_packet_parse m =
    let n = parse_header m in
    if n.cookie == magic_cookie
    then elim (dhcp_option_parse [] m.packet.options) [
      | overrun ↦ crashed
      | running ↦ hung
      | parsed os ↦ elim (dhcp_option_retrieve os 53) [
        | none ↦ rejected (record n { dhcp_options = os })
        | some o ↦ accepted (record n { dhcp_options = os; type = read_u32 o.value })
      ]
    ]
    else rejected n

-- The part of dhcp_packet_build before the test of the cookie.
unfoldable pub build_header : DhcpMessage → DhcpPacket
unfolding swap_u32 swap_u16 memcpy
build_header m =
    let p = m.packet in
    record p {
      opcode = m.opcode;
      htype = m.htype;
      hlen = m.hlen;
      hops = m.hops;
      xid = swap_u32 m.xid;
      secs = swap_u16 m.secs;
      flags = swap_u16 m.flags;
      ciaddr = swap_u32 m.ciaddr;
      yiaddr = swap_u32 m.yiaddr;
      siaddr = swap_u32 m.siaddr;
      giaddr = swap_u32 m.giaddr;
      chaddr = memcpy 16 m.chaddr p.chaddr;
      sname = memcpy 64 m.sname p.sname;
      filename = memcpy 128 m.filename p.filename;
    }

unfoldable pub dhcp_packet_build : DhcpMessage → PacketResult
unfolding build_header swap_u32
dhcp_packet_build m =
    let p = build_header m in
    let (done, options) = dhcp_options_serialize m.dhcp_options p.options in
    let built = record m { packet = record p { cookie = swap_u32 m.cookie; options = options } } in
    if m.cookie == magic_cookie
    then (if done then accepted built else rejected built)
    else rejected (record m { packet = p })

-- A packet of zeros, as calloc gives it.
unfoldable zero_packet : DhcpPacket
zero_packet = record {
  opcode = 0;
  htype = 0;
  hlen = 0;
  hops = 0;
  xid = 0;
  secs = 0;
  flags = 0;
  ciaddr = 0;
  yiaddr = 0;
  siaddr = 0;
  giaddr = 0;
  chaddr = replicate 16 0;
  sname = replicate 64 0;
  filename = replicate 128 0;
  cookie = 0;
  options = replicate 336 0;
}

unfoldable pub dhcp_message_new : DhcpMessage
unfolding zero_packet
dhcp_message_new = record {
  packet = zero_packet;
  type = 0;
  opcode = 0;
  htype = 0;
  hlen = 0;
  hops = 0;
  xid = 0;
  secs = 0;
  flags = 0;
  ciaddr = 0;
  yiaddr = 0;
  siaddr = 0;
  giaddr = 0;
  chaddr = replicate 18 0;
  sname = replicate 64 0;
  filename = replicate 128 0;
  cookie = 0;
  dhcp_options = [];
  time = 0;
}

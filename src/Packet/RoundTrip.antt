-- ===== src/Packet/RoundTrip.antt =====
-- A message that dhcp_packet_build has built, read by dhcp_packet_parse (server/src/dhcp_packet.c).
use dhcpv4_server_with_gui_c.Prelude.{
  ℕ, zero, suc, ◌^◌, ◌≤◌, ◌<◌, ◌≡◌, refl, ap, ◌∙◌, List, [], ◌∷◌, some, arith, length, true, ◌==◌,
}
use dhcpv4_server_with_gui_c.Options.{DhcpOption, memcpy, read_u32, dhcp_option_retrieve}
use dhcpv4_server_with_gui_c.Codec.{options_size, dhcp_option_parse, parsed, dhcp_options_serialize}
use dhcpv4_server_with_gui_c.Codec.Fields.{Field, AreFields, AreNew, encode, options_of}
use dhcpv4_server_with_gui_c.Codec.RoundTrip.{serialize-RoundTrip}
use dhcpv4_server_with_gui_c.Packet.{
  DhcpPacket, DhcpMessage, accepted, magic_cookie, parse_header, build_header, dhcp_packet_parse,
  dhcp_packet_build, swap_u32,
}
use dhcpv4_server_with_gui_c.Packet.Swap.{swap_u32-RoundTrip, swap_u16-RoundTrip}

memcpy_full : (n : ℕ) (src dst : List ℕ) → length src ≡ n → length dst ≡ n → memcpy n src dst ≡ src
unfolding memcpy
memcpy_full zero [] [] a b = refl
memcpy_full zero (x ∷ src) dst a b = absurd (omega arith)
memcpy_full zero [] (y ∷ dst) a b = absurd (omega arith)
memcpy_full (suc n) [] dst a b = absurd (omega arith)
memcpy_full (suc n) (x ∷ src) [] a b = absurd (omega arith)
memcpy_full (suc n) (x ∷ src) (y ∷ dst) a b =
    ap (◌∷◌ x) (memcpy_full n src dst (omega arith) (omega arith))

memcpy-memcpy :
    (n : ℕ) (src mid dst : List ℕ)
    → n ≤ length mid
    → memcpy n (memcpy n src mid) dst ≡ memcpy n src dst
unfolding memcpy
memcpy-memcpy zero src mid dst h = refl
memcpy-memcpy (suc n) src [] dst h = absurd (omega arith)
memcpy-memcpy (suc n) src (y ∷ mid) [] h = refl
memcpy-memcpy (suc n) [] (y ∷ mid) (z ∷ dst) h =
    ap (◌∷◌ 0) (memcpy-memcpy n [] mid dst (omega arith))
memcpy-memcpy (suc n) (x ∷ src) (y ∷ mid) (z ∷ dst) h =
    ap (◌∷◌ x) (memcpy-memcpy n src mid dst (omega arith))

-- The arrays of a raw packet have their declared sizes, as far as the code relies on them.
pub record IsPacket (p : DhcpPacket) : Type 0 where
  pub chaddr_size : 16 ≤ length p.chaddr
  pub sname_size : length p.sname ≡ 64
  pub filename_size : length p.filename ≡ 128
  pub options_room : options_size < length p.options

-- A message whose numbers fit their fields, with options that are distinct fields.
pub record IsSendable (m : DhcpMessage) (fs : List Field) : Type 0 where
  pub raw : IsPacket m.packet
  pub xid_word : m.xid < 2 ^ 32
  pub secs_word : m.secs < 2 ^ 16
  pub flags_word : m.flags < 2 ^ 16
  pub ciaddr_word : m.ciaddr < 2 ^ 32
  pub yiaddr_word : m.yiaddr < 2 ^ 32
  pub siaddr_word : m.siaddr < 2 ^ 32
  pub giaddr_word : m.giaddr < 2 ^ 32
  pub cookie_magic : m.cookie ≡ magic_cookie
  pub sname_full : length m.sname ≡ 64
  pub filename_full : length m.filename ≡ 128
  pub carried : m.dhcp_options ≡ options_of fs
  pub fields : AreFields fs
  pub fresh : AreNew [] fs
  pub room : length (encode fs) ≤ options_size

-- What a receiver makes of a sent message and its packet: all but the packet, the type, the last
-- two bytes of the hardware address and the time is the sender's.
abbrev pub received : DhcpMessage → DhcpPacket → DhcpMessage → DhcpOption → DhcpMessage
received m p r o = record m {
  packet = p;
  type = read_u32 o.value;
  chaddr = memcpy 16 m.chaddr r.chaddr;
  time = r.time;
}

-- The buffers of the receiver.
pub record IsReceiver (r : DhcpMessage) : Type 0 where
  pub sname_buffer : length r.sname ≡ 64
  pub filename_buffer : length r.filename ≡ 128

header-RoundTrip :
    (m r : DhcpMessage) (fs : List Field) (options : List ℕ)
    → IsSendable m fs
    → IsReceiver r
    → let p = record (build_header m) { cookie = swap_u32 m.cookie; options = options } in
      parse_header (record r { packet = p }) ≡ record m {
        packet = p;
        type = r.type;
        chaddr = memcpy 16 m.chaddr r.chaddr;
        time = r.time;
        dhcp_options = r.dhcp_options;
      }
unfolding parse_header build_header
header-RoundTrip m r fs options s v =
    rw
      (
        swap_u32-RoundTrip m.xid s.xid_word,
        swap_u16-RoundTrip m.secs s.secs_word,
        swap_u16-RoundTrip m.flags s.flags_word,
        swap_u32-RoundTrip m.ciaddr s.ciaddr_word,
        swap_u32-RoundTrip m.yiaddr s.yiaddr_word,
        swap_u32-RoundTrip m.siaddr s.siaddr_word,
        swap_u32-RoundTrip m.giaddr s.giaddr_word,
        swap_u32-RoundTrip m.cookie (omega (arith, s.cookie_magic)),
        memcpy-memcpy 16 m.chaddr m.packet.chaddr r.chaddr s.raw.chaddr_size,
        memcpy_full 64 m.sname m.packet.sname s.sname_full s.raw.sname_size,
        memcpy_full 64 m.sname r.sname s.sname_full v.sname_buffer,
        memcpy_full 128 m.filename m.packet.filename s.filename_full s.raw.filename_size,
        memcpy_full 128 m.filename r.filename s.filename_full v.filename_buffer,
      )
      refl

parse_accepts :
    (m n : DhcpMessage) (os : List DhcpOption) (o : DhcpOption)
    → parse_header m ≡ n
    → n.cookie ≡ magic_cookie
    → dhcp_option_parse [] m.packet.options ≡ parsed os
    → dhcp_option_retrieve os 53 ≡ some o
    → dhcp_packet_parse m ≡ accepted (record n { dhcp_options = os; type = read_u32 o.value })
unfolding dhcp_packet_parse
parse_accepts m n os o h c p t =
    let cookie : (parse_header m).cookie ≡ magic_cookie =
      ap (λ (k : DhcpMessage). k.cookie) h ∙ c in
    let magic : ((parse_header m).cookie == magic_cookie) ≡ true = ground (arith, cookie) in
    rw (magic, p, t)
      (ap (λ (k : DhcpMessage). accepted (record k { dhcp_options = os; type = read_u32 o.value }))
        h)

-- A sendable message with a message type among its options is built, and a receiver that reads the
-- packet accepts it as that message.
pub build-RoundTrip :
    (m r : DhcpMessage) (fs : List Field) (o : DhcpOption)
    → IsSendable m fs
    → IsReceiver r
    → dhcp_option_retrieve m.dhcp_options 53 ≡ some o
    → (p : DhcpPacket) × (dhcp_packet_build m ≡ accepted (record m { packet = p }))
      × (dhcp_packet_parse (record r { packet = p }) ≡ accepted (received m p r o))
unfolding dhcp_packet_build
build-RoundTrip m r fs o s v typed =
    let raw = (build_header m).options in
    let magic : (m.cookie == magic_cookie) ≡ true = ground (arith, s.cookie_magic) in
    let room : options_size < length (build_header m).options =
      unfold build_header in s.raw.options_room in
    let (done, back) = serialize-RoundTrip fs raw s.fields s.fresh s.room room in
    let complete : (dhcp_options_serialize m.dhcp_options raw).0 ≡ true = rw s.carried done in
    let read : dhcp_option_parse [] (dhcp_options_serialize m.dhcp_options raw).1
        ≡ parsed m.dhcp_options =
      rw s.carried back in
    let head = header-RoundTrip m r fs (dhcp_options_serialize m.dhcp_options raw).1 s v in
    let out = (dhcp_options_serialize m.dhcp_options raw).1 in
    (
      record (build_header m) { cookie = swap_u32 m.cookie; options = out },
      rw (magic, complete) refl,
      parse_accepts _ _ m.dhcp_options o head s.cookie_magic read typed,
    )

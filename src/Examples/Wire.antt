-- ===== src/Examples/Wire.antt =====
-- Theorems on server/src/dhcp_options.c and server/src/dhcp_packet.c at a DHCPDISCOVER.
use dhcpv4_server_with_gui_c.Prelude.{
  ◌↔◌, ℕ, ◌≡◌, ◌<◌, ◌+◌, refl, true, some, List, [], ◌∷◌, ◌++◌, arith, replicate, length,
}
use dhcpv4_server_with_gui_c.Options.{tag_to_type, dhcp_option_retrieve}
use dhcpv4_server_with_gui_c.Codec.{
  options_size, parsed, running, parse_loop, parse_option, dhcp_option_parse,
  dhcp_options_serialize,
}
use dhcpv4_server_with_gui_c.Codec.Pad.{MeetsPad, parse_running}
use dhcpv4_server_with_gui_c.Codec.Parse.{AreWellFormed, parse-AreWellFormed}
use dhcpv4_server_with_gui_c.Codec.Fields.{Field, AreFields, AreNew, encode, options_of, option_of}
use dhcpv4_server_with_gui_c.Codec.RoundTrip.{parse-encode, parse-pad, serialize-RoundTrip}
use dhcpv4_server_with_gui_c.Packet.{
  DhcpMessage, DhcpPacket, accepted, dhcp_packet_parse, dhcp_packet_build, dhcp_message_new,
}
use dhcpv4_server_with_gui_c.Packet.RoundTrip.{IsSendable, IsReceiver, received, build-RoundTrip}
use dhcpv4_server_with_gui_c.Packet.Accepted.{IsAccepted, accepted_lem}

-- Message type 1, requested address 192.168.1.16, host name "ab"
abbrev fields : List Field
fields = (53, 1 ∷ []) ∷ (50, 192 ∷ 168 ∷ 1 ∷ 16 ∷ []) ∷ (12, 97 ∷ 98 ∷ []) ∷ []

fields-AreFields : AreFields fields
unfolding tag_to_type
fields-AreFields = (
  ((λ e. omega arith), (λ e. omega arith), omega arith, (omega arith, tt)),
  (
    (
      (λ e. omega arith),
      (λ e. omega arith),
      omega arith,
      (omega arith, (omega arith, (omega arith, (omega arith, tt)))),
    ),
    (((λ e. omega arith), (λ e. omega arith), omega arith, (omega arith, (omega arith, tt))), tt),
  ),
)

fields-AreNew : AreNew [] fields
unfolding dhcp_option_retrieve parse_option tag_to_type
fields-AreNew = (refl, (refl, (refl, tt)))

fields_fit : length (encode fields) < options_size
unfolding encode
fields_fit = omega arith

abbrev padded : List ℕ
padded = 53 ∷ 1 ∷ 1 ∷ 0 ∷ 255 ∷ []

parse_running_example : (dhcp_option_parse [] padded ≡ running) ↔ MeetsPad padded 0
parse_running_example = parse_running [] padded

parse-AreWellFormed_example : AreWellFormed (options_of fields)
parse-AreWellFormed_example =
    parse-AreWellFormed [] (encode fields ++ (255 ∷ [])) (tt, tt)
      (parse-encode fields [] [] fields-AreFields fields-AreNew (omega (arith, fields_fit)))

parse-pad_example :
    parse_loop (length fields + 1000) (encode fields ++ (0 ∷ 255 ∷ [])) 0 [] ≡ running
parse-pad_example = parse-pad fields (255 ∷ []) [] 1000 fields-AreFields fields-AreNew fields_fit

serialize-RoundTrip_example :
    ((dhcp_options_serialize (options_of fields) (replicate 336 0)).0 ≡ true)
    × (dhcp_option_parse [] (dhcp_options_serialize (options_of fields) (replicate 336 0)).1
        ≡ parsed (options_of fields))
serialize-RoundTrip_example =
    serialize-RoundTrip fields (replicate 336 0) fields-AreFields fields-AreNew
      (omega (arith, fields_fit)) (omega arith)

discover : DhcpMessage
discover = record dhcp_message_new {
  opcode = 1;
  htype = 1;
  hlen = 6;
  xid = 305419896;
  cookie = 0x63825363;
  dhcp_options = options_of fields;
}

discover-IsSendable : IsSendable discover fields
unfolding discover dhcp_message_new
discover-IsSendable = record {
  raw = record {
    chaddr_size = omega arith;
    sname_size = refl;
    filename_size = refl;
    options_room = omega arith;
  };
  xid_word = omega arith;
  secs_word = omega arith;
  flags_word = omega arith;
  ciaddr_word = omega arith;
  yiaddr_word = omega arith;
  siaddr_word = omega arith;
  giaddr_word = omega arith;
  cookie_magic = refl;
  sname_full = refl;
  filename_full = refl;
  carried = refl;
  fields = fields-AreFields;
  fresh = fields-AreNew;
  room = omega (arith, fields_fit);
}

buffer-IsReceiver : IsReceiver dhcp_message_new
unfolding dhcp_message_new
buffer-IsReceiver = record { sname_buffer = refl; filename_buffer = refl }

discover_typed : dhcp_option_retrieve discover.dhcp_options 53 ≡ some (option_of (53, 1 ∷ []))
unfolding discover dhcp_option_retrieve parse_option tag_to_type
discover_typed = refl

build-RoundTrip_example :
    (p : DhcpPacket) × (dhcp_packet_build discover ≡ accepted (record discover { packet = p }))
    × (dhcp_packet_parse (record dhcp_message_new { packet = p })
        ≡ accepted (received discover p dhcp_message_new (option_of (53, 1 ∷ []))))
build-RoundTrip_example =
    build-RoundTrip discover dhcp_message_new fields (option_of (53, 1 ∷ [])) discover-IsSendable
      buffer-IsReceiver discover_typed

abbrev sent :
    (p : DhcpPacket) × (dhcp_packet_parse (record dhcp_message_new { packet = p })
      ≡ accepted (received discover p dhcp_message_new (option_of (53, 1 ∷ []))))
sent = (
  (build-RoundTrip discover dhcp_message_new fields (option_of (53, 1 ∷ [])) discover-IsSendable
      buffer-IsReceiver discover_typed).0,
  (build-RoundTrip discover dhcp_message_new fields (option_of (53, 1 ∷ [])) discover-IsSendable
      buffer-IsReceiver discover_typed).2,
)

accepted_lem_example :
    IsAccepted (received discover sent.0 dhcp_message_new (option_of (53, 1 ∷ [])))
accepted_lem_example =
    accepted_lem (record dhcp_message_new { packet = sent.0 })
      (received discover sent.0 dhcp_message_new (option_of (53, 1 ∷ []))) sent.1

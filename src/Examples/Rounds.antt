-- ===== src/Examples/Rounds.antt =====
-- Theorems on acknowledgements and renewals (server/src/messages) and on the rounds of
-- dhcp_server_serve (server/src/dhcp_server.c) at servers with one pool.
use dhcpv4_server_with_gui_c.Prelude.{
  ◌≡◌, refl, Bool, true, none, some, List, [], ◌∷◌, ◌++◌, arith, replicate, map,
}
use dhcpv4_server_with_gui_c.Prelude.Bytes.{bit_of, raise_bit}
use dhcpv4_server_with_gui_c.Options.{tag_to_type, dhcp_option_new_values}
use dhcpv4_server_with_gui_c.Pool.{
  address_belongs_to_pool, address_pool_get_address_allocation, address_pool_set_address_allocation,
}
use dhcpv4_server_with_gui_c.Allocator.{allocator_is_address_available, find_pool}
use dhcpv4_server_with_gui_c.Allocator.Pools.{pools_read}
use dhcpv4_server_with_gui_c.Allocator.Address.{is_address_in_use}
use dhcpv4_server_with_gui_c.Acl.{acl_new, dynamic_acl_new}
use dhcpv4_server_with_gui_c.Codec.{dhcp_options_serialize, dhcp_option_parse, parse_option}
use dhcpv4_server_with_gui_c.Packet.{DhcpPacket, DhcpMessage, dhcp_message_new, dhcp_packet_build}
use dhcpv4_server_with_gui_c.Transaction.{trans_search_for}
use dhcpv4_server_with_gui_c.TransCache.{trans_cache_new, at, trans_cache_retrieve_transaction}
use dhcpv4_server_with_gui_c.TransCache.Invariant.{new-AreValid}
use dhcpv4_server_with_gui_c.TransCache.Armed.{new-IsArmed}
use dhcpv4_server_with_gui_c.Lease.{Lease}
use dhcpv4_server_with_gui_c.Server.{Server, call_trans_timer_cb_clear}
use dhcpv4_server_with_gui_c.Server.Invariant.{IsServing}
use dhcpv4_server_with_gui_c.Answer.{Sent, finished, message_dhcpack_build}
use dhcpv4_server_with_gui_c.Answer.Forgotten.{ack_forgotten}
use dhcpv4_server_with_gui_c.Serve.{
  Serving, Round, next, crashed, hung, Event, receive, dhcp_server_serve,
}
use dhcpv4_server_with_gui_c.Serve.Rounds.{serve-IsServing}
use dhcpv4_server_with_gui_c.Examples.{lan_start, lan_options, lan-IsValid, used_lan-IsValid}
use dhcpv4_server_with_gui_c.Examples.Answers.{net, server, discover, offering, request, ended}

offering-IsServing : IsServing offering
offering-IsServing = record {
  allocator = record { valid = (used_lan-IsValid, tt); apart = (tt, tt) };
  cache = (
    record { owned = (refl, (refl, tt)); counted = omega arith; idle = λ e. absurd (ground arith) },
    tt,
  );
  armed = (refl, tt);
}

abbrev acked : Bool × Server × List Sent
acked = ended (message_dhcpack_build net offering request 3600 lan_start 12)

acks : message_dhcpack_build net offering request 3600 lan_start 12 ≡ finished true acked.1 acked.2
unfolding message_dhcpack_build address_belongs_to_pool lan_options dhcp_options_serialize
    dhcp_packet_build dhcp_option_new_values
acks = refl

own_transaction : trans_cache_retrieve_transaction offering.trans_cache 7 0 ≡ some 0
unfolding trans_cache_retrieve_transaction
own_transaction = refl

offer_there :
    trans_search_for (at offering.trans_cache 0) 2
    ≡ some (record discover { type = 2; yiaddr = lan_start })
unfolding trans_search_for
offer_there = refl

no_ack_there : trans_search_for (at offering.trans_cache 0) 5 ≡ none
unfolding trans_search_for
no_ack_there = refl

in_use : is_address_in_use offering.allocator lan_start ≡ true
unfolding address_pool_get_address_allocation find_pool bit_of address_belongs_to_pool pools_read
in_use = refl

ack_forgotten_example :
    (is_address_in_use acked.1.allocator lan_start ≡ true)
    × (allocator_is_address_available (call_trans_timer_cb_clear acked.1 0 72).allocator lan_start
        ≡ true)
ack_forgotten_example =
    ack_forgotten net offering request (record discover { type = 2; yiaddr = lan_start }) 3600
      lan_start 12 0 72 acked.1 acked.2 offering-IsServing own_transaction offer_there no_ack_there
      in_use acks

abbrev lease : Lease
lease = record {
  address = lan_start;
  subnet = 4294967040;
  pool_name = "lan";
  lease_start = 12;
  lease_expire = 3612;
  xid = 7;
  flags = 0;
  client_mac_address = replicate 6 0;
}

abbrev leased : Server
leased = record offering { files = ("lan", lease ∷ []) ∷ [] }

abbrev renewal : DhcpMessage
renewal = record request { ciaddr = lan_start; xid = 9 }

abbrev longer : Server
longer = record leased {
  files = ("lan", record lease { lease_start = 1800; lease_expire = 5400 } ∷ []) ∷ [];
}

-- A DHCPDISCOVER of transaction 7 on the wire
abbrev packet : DhcpPacket
packet = record dhcp_message_new.packet {
  opcode = 1;
  htype = 1;
  hlen = 6;
  xid = 117440512;
  cookie = 1666417251;
  options = (53 ∷ 1 ∷ 1 ∷ 55 ∷ 2 ∷ 1 ∷ 3 ∷ 255 ∷ []) ++ replicate 328 0;
}

abbrev serving : Serving
serving = record {
  server = server;
  acl = acl_new;
  dacl = dynamic_acl_new;
  dhcp_msg = dhcp_message_new;
}

-- The parts of a round that goes on
abbrev parts : Round → Serving × List Sent
parts (next s sent) = (s, sent)
parts crashed = (serving, [])
parts hung = (serving, [])

abbrev got : Serving × List Sent
got = parts (receive net serving none packet [] 9)

server-IsServing : IsServing server
unfolding trans_cache_new
server-IsServing = record {
  allocator = record { valid = (lan-IsValid, tt); apart = (tt, tt) };
  cache = new-AreValid 2 60 5;
  armed = (new-IsArmed 60 5, (new-IsArmed 60 5, tt));
}

abbrev events : List Event
events =
    record { now = 9; received = some packet; stale = [] }
    ∷ record { now = 10; received = none; stale = [] }
    ∷ record { now = 80; received = none; stale = [] }
    ∷ []

abbrev ran : Serving × List Sent
ran = parts (dhcp_server_serve net none serving events [])

runs : dhcp_server_serve net none serving events [] ≡ next ran.0 ran.1
unfolding dhcp_server_serve dhcp_message_new address_pool_get_address_allocation
    address_belongs_to_pool address_pool_set_address_allocation lan_options dhcp_options_serialize
    bit_of raise_bit dhcp_packet_build dhcp_option_new_values dhcp_option_parse parse_option
    tag_to_type acl_new dynamic_acl_new trans_cache_new
runs = refl

serve-IsServing_example : IsServing ran.0.server
serve-IsServing_example =
    serve-IsServing net none serving ran.0 events [] ran.1 server-IsServing runs

-- The offer of the first round has gone out, and nothing since.
one_offer : map (λ (s : Sent). s.packet.yiaddr) ran.1 ≡ 268544192 ∷ []
unfolding dhcp_server_serve dhcp_message_new address_pool_get_address_allocation
    address_belongs_to_pool address_pool_set_address_allocation lan_options dhcp_options_serialize
    bit_of raise_bit dhcp_packet_build dhcp_option_new_values dhcp_option_parse parse_option
    tag_to_type acl_new dynamic_acl_new trans_cache_new
one_offer = refl

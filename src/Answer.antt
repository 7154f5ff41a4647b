-- ===== src/Answer.antt =====
-- The answers of the server: server/src/messages/dhcpoffer.c, server/src/messages/dhcpack.c,
-- server/src/messages/dhcpnak.c and server/src/messages/dhcpinform.c. sendto is outside the
-- program: whether it succeeds is a field of `Network`, and what is handed to it is collected in
-- a list. The packet database, which the server never reads, is left out. A cached message keeps
-- the option list that it was built with.
pub mod Laws
pub mod Typed
pub mod Headers
pub mod Forgotten
use dhcpv4_server_with_gui_c.Prelude.{
  ℕ, zero, suc, Bool, true, false, Option, none, some, List, [], ◌∷◌, ◌==◌, if◌then◌else◌,
  replicate,
}
use dhcpv4_server_with_gui_c.Options.{
  DhcpOption, memcpy, dhcp_option_new_values, dhcp_option_retrieve, dhcp_option_add,
}
use dhcpv4_server_with_gui_c.RequiredOptions.{dhcp_option_build_required_options}
use dhcpv4_server_with_gui_c.Pool.{AddressPool}
use dhcpv4_server_with_gui_c.Allocator.{Allocator, allocator_get_pool_by_address}
use dhcpv4_server_with_gui_c.Packet.{
  DhcpPacket, DhcpMessage, PacketResult, accepted, rejected, dhcp_packet_build, dhcp_message_new,
  swap_u32,
}
use dhcpv4_server_with_gui_c.TransCache.{trans_cache_add_message}
use dhcpv4_server_with_gui_c.Server.{Server}

-- The addresses of `config` in `dhcp_server_t`, in host byte order, and whether sendto succeeds
pub record Network : Type 0 where
  pub bound_ip : ℕ
  pub broadcast_addr : ℕ
  pub sends : Bool

-- A packet handed to sendto, `message.packet` of the message, with the address that it goes to
pub record Sent : Type 0 where
  pub packet : DhcpPacket
  pub to : ℕ

-- How a handler ends: with a return value, 0 being `true`, the server and what was sent; at a read
-- through a null pointer or past an array; or not at all.
pub data Outcome : Type 0 where
  finished : Bool → Server → List Sent → Outcome
  crashed hung : Outcome

-- What the functions `message_…_send` share
unfoldable send : Network → DhcpMessage → ℕ → Bool × List Sent
send net message addr =
    if net.sends then (true, record { packet = message.packet; to = addr } ∷ []) else (false, [])

unfoldable pub message_dhcpoffer_send : Network → DhcpMessage → Bool × List Sent
unfolding send
message_dhcpoffer_send net message = send net message net.broadcast_addr

unfoldable pub message_dhcpack_send : Network → DhcpMessage → Bool × List Sent
unfolding send
message_dhcpack_send net message =
    send net message (if message.ciaddr == 0 then net.broadcast_addr else message.ciaddr)

-- `message.ciaddr` is used in host byte order, without htonl: the address is that of its bytes in
-- the other order. No caller sends a message with a ciaddr.
unfoldable pub message_nak_send : Network → DhcpMessage → Bool × List Sent
unfolding send
message_nak_send net message =
    send net message (if message.ciaddr == 0 then net.broadcast_addr else swap_u32 message.ciaddr)

-- A tag list as the loops over it read it: up to its first 0
unfoldable pub tags_of : List ℕ → List ℕ
tags_of [] = []
tags_of (tag ∷ tags) = if tag == 0 then [] else tag ∷ tags_of tags

-- `requested_options`, an array of 256 zeros into which the value of option 55 is copied. `none` is
-- a read through a null pointer.
unfoldable pub requested_tags : List DhcpOption → Option (List ℕ)
unfolding dhcp_option_retrieve memcpy tags_of
requested_tags options = elim (dhcp_option_retrieve options 55) [
  | none ↦ none
  | some o55 ↦ some (tags_of (memcpy o55.lenght o55.value (replicate 256 0)))
]

-- The part of the four functions get_requested_dhcp_options up to the call that builds the list:
-- of what `none` is a crash; the first part is whether the function goes on.
unfoldable pub build_options :
    Allocator → List DhcpOption → ℕ → List ℕ → List ℕ → ℕ → Option (Bool × List DhcpOption)
unfolding requested_tags allocator_get_pool_by_address dhcp_option_build_required_options
build_options allocator client_options address required blacklist type =
    elim (requested_tags client_options) [
      | none ↦ none
      | some tags ↦ elim (allocator_get_pool_by_address allocator address) [
        | none ↦ some (false, [])
        | some pool ↦ some (
            dhcp_option_build_required_options [] tags required blacklist allocator.default_options
              pool.dhcp_option_override type)
      ]
    ]

-- get_requested_dhcp_options of dhcpoffer.c. The offered duration is not used.
unfoldable pub offer_options : Allocator → DhcpMessage → ℕ → ℕ → Option (Bool × List DhcpOption)
unfolding build_options dhcp_option_retrieve dhcp_option_add dhcp_option_new_values
offer_options allocator discover duration address =
    elim (build_options allocator discover.dhcp_options address (51 ∷ 54 ∷ [])
      (50 ∷ 55 ∷ 61 ∷ 57 ∷ []) 2) [
        | none ↦ none
        | some (false, options) ↦ some (false, options)
        | some (true, options) ↦ elim (dhcp_option_retrieve discover.dhcp_options 61) [
          | none ↦ some (true, options)
          | some o61_client ↦ some (
            true,
            dhcp_option_add options (dhcp_option_new_values 61 o61_client.lenght o61_client.value),
          )
        ]
      ]

-- get_requested_dhcp_options of dhcpack.c
unfoldable pub ack_options : Allocator → DhcpMessage → ℕ → Option (Bool × List DhcpOption)
unfolding build_options
ack_options allocator request address =
    build_options allocator request.dhcp_options address (51 ∷ 54 ∷ []) (50 ∷ 55 ∷ 61 ∷ 57 ∷ []) 5

-- get_requested_dhcp_options_inform_response
unfoldable pub inform_options : Allocator → DhcpMessage → Option (Bool × List DhcpOption)
unfolding build_options
inform_options allocator inform =
    build_options allocator inform.dhcp_options inform.ciaddr (54 ∷ [])
      (50 ∷ 51 ∷ 55 ∷ 61 ∷ 57 ∷ []) 5

-- get_requested_dhcp_options of dhcpnak.c
unfoldable pub nak_options : Allocator → Bool × List DhcpOption
unfolding dhcp_option_build_required_options dhcp_option_new_values tags_of
nak_options allocator =
    let o55 = dhcp_option_new_values 55 1 (0 ∷ []) in
    dhcp_option_build_required_options [] (tags_of o55.value) (54 ∷ []) [] allocator.default_options
      allocator.default_options 6

-- What follows the options in each of the builders: the packet is built, sent and cached. The
-- function that sends is the argument.
unfoldable pub deliver :
    (DhcpMessage → Bool × List Sent)
    → Server
    → DhcpMessage
    → Option (Bool × List DhcpOption)
    → ℕ
    → Outcome
unfolding dhcp_packet_build trans_cache_add_message
deliver send server message none now = crashed
deliver send server message (some (false, options)) now = finished false server []
deliver send server message (some (true, options)) now =
    elim (dhcp_packet_build (record message { dhcp_options = options })) [
      | PacketResult.crashed ↦ crashed
      | PacketResult.hung ↦ hung
      | rejected built ↦ finished false server []
      | accepted built ↦
          let (done, sent) = send built in
          let (cached, cache, stored) = trans_cache_add_message server.trans_cache built now in
          if done
          then finished cached (record server { trans_cache = cache }) sent
          else finished false server sent
    ]

-- The fields that every builder sets in the same way, from those of the client's message
unfoldable pub reply : DhcpMessage → DhcpMessage
unfolding dhcp_message_new memcpy
reply client = record dhcp_message_new {
  opcode = 2;
  htype = client.htype;
  hlen = client.hlen;
  xid = client.xid;
  flags = client.flags;
  cookie = client.cookie;
  chaddr = memcpy 18 client.chaddr dhcp_message_new.chaddr;
}

unfoldable pub message_dhcpoffer_build : Network → Server → DhcpMessage → ℕ → ℕ → ℕ → Outcome
unfolding reply message_dhcpoffer_send offer_options deliver
message_dhcpoffer_build net server discover address duration now =
    let offer = record (reply discover) {
      yiaddr = address;
      siaddr = net.bound_ip;
      giaddr = discover.giaddr;
      type = 2;
    } in
    deliver (message_dhcpoffer_send net) server offer
      (offer_options server.allocator discover duration address) now

-- The type of the acknowledgement is left at 0. The duration is not used.
unfoldable pub message_dhcpack_build : Network → Server → DhcpMessage → ℕ → ℕ → ℕ → Outcome
unfolding reply message_dhcpack_send ack_options deliver
message_dhcpack_build net server request duration address now =
    let ack = record (reply request) {
      ciaddr = request.ciaddr;
      yiaddr = address;
      siaddr = net.bound_ip;
      giaddr = request.giaddr;
    } in
    deliver (message_dhcpack_send net) server ack (ack_options server.allocator request address) now

-- The type of the acknowledgement is left at 0.
unfoldable pub message_dhcpack_build_lease_renew : Network → Server → DhcpMessage → ℕ → Outcome
unfolding reply message_dhcpack_send ack_options deliver
message_dhcpack_build_lease_renew net server request now =
    let ack = record (reply request) {
      ciaddr = request.ciaddr;
      yiaddr = request.ciaddr;
      siaddr = net.bound_ip;
      giaddr = 0;
    } in
    deliver (message_dhcpack_send net) server ack
      (ack_options server.allocator request request.ciaddr) now

unfoldable pub message_dhcpack_build_inform_response : Network → Server → DhcpMessage → ℕ → Outcome
unfolding reply message_dhcpack_send inform_options deliver
message_dhcpack_build_inform_response net server inform now =
    let ack = record (reply inform) {
      ciaddr = inform.ciaddr;
      siaddr = net.bound_ip;
      giaddr = inform.giaddr;
      type = 5;
    } in
    if inform.ciaddr == 0
    then finished false server []
    else deliver (message_dhcpack_send net) server ack (inform_options server.allocator inform) now

unfoldable pub message_dhcpnak_build : Network → Server → DhcpMessage → ℕ → Outcome
unfolding reply message_nak_send nak_options deliver
message_dhcpnak_build net server request now =
    let nak = record (reply request) { giaddr = request.giaddr; type = 6 } in
    deliver (message_nak_send net) server nak (some (nak_options server.allocator)) now

unfoldable pub message_dhcpinform_handle : Network → Server → DhcpMessage → ℕ → Outcome
unfolding message_dhcpack_build_inform_response
message_dhcpinform_handle net server message now =
    message_dhcpack_build_inform_response net server message now

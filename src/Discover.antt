-- ===== src/Discover.antt =====
-- server/src/messages/dhcpdiscover.c: the handler of DHCPDISCOVER.
pub mod Laws
pub mod Sound
use dhcpv4_server_with_gui_c.Prelude.{
  ℕ, zero, suc, Bool, true, false, Option, none, some, List, [], ◌∷◌, leb, ◌==◌, if◌then◌else◌,
}
use dhcpv4_server_with_gui_c.Options.{DhcpOption, read_u32, dhcp_option_retrieve}
use dhcpv4_server_with_gui_c.Allocator.{
  Allocator, allocator_request_this_address, allocator_request_any_address,
}
use dhcpv4_server_with_gui_c.Packet.{DhcpMessage}
use dhcpv4_server_with_gui_c.Server.{Server}
use dhcpv4_server_with_gui_c.Answer.{Network, Outcome, finished, hung, message_dhcpoffer_build}

-- A variable `address`, 0 at first, that a call sets or leaves alone
abbrev pub set_or_zero : Option ℕ → ℕ
set_or_zero none = 0
set_or_zero (some address) = address

unfoldable pub allocate_particular_address : Allocator → DhcpMessage → ℕ × Allocator
unfolding dhcp_option_retrieve read_u32 allocator_request_this_address
allocate_particular_address allocator message =
    elim (dhcp_option_retrieve message.dhcp_options 50) [
      | none ↦ (0, allocator)
      | some o50 ↦
          let (rv, out, next) = allocator_request_this_address allocator (read_u32 o50.value) in
          (set_or_zero out, next)
    ]

-- `none` is a search that does not end.
unfoldable pub allocate_random_address : Allocator → Option (ℕ × Allocator)
unfolding allocator_request_any_address
allocate_random_address allocator = elim (allocator_request_any_address allocator) [
  | none ↦ none
  | some (rv, out, next) ↦ some (set_or_zero out, next)
]

unfoldable pub get_lease_duration : Allocator → DhcpMessage → ℕ
unfolding dhcp_option_retrieve read_u32
get_lease_duration allocator message = elim (dhcp_option_retrieve allocator.default_options 51) [
  | none ↦ 0
  | some o51_global ↦ elim (dhcp_option_retrieve message.dhcp_options 51) [
    | none ↦ read_u32 o51_global.value
    | some o51_requested ↦
        if leb (read_u32 o51_requested.value) (read_u32 o51_global.value)
        then read_u32 o51_requested.value
        else read_u32 o51_global.value
  ]
]

-- The address that the handler goes on with, or 0, and the allocator after the one or two requests
unfoldable pub allocate_address : Allocator → DhcpMessage → Option (ℕ × Allocator)
unfolding allocate_particular_address allocate_random_address
allocate_address allocator message =
    let (address, next) = allocate_particular_address allocator message in
    if address == 0 then allocate_random_address next else some (address, next)

-- What follows the allocation
unfoldable pub offer_address : Network → Server → DhcpMessage → ℕ → ℕ → Outcome
unfolding get_lease_duration message_dhcpoffer_build
offer_address net server message address now =
    let lease_time = get_lease_duration server.allocator message in
    if address == 0
    then finished false server []
    else if lease_time == 0
    then finished false server []
    else message_dhcpoffer_build net server message address lease_time now

unfoldable pub message_dhcpdiscover_handle : Network → Server → DhcpMessage → ℕ → Outcome
unfolding allocate_address offer_address
message_dhcpdiscover_handle net server message now =
    elim (allocate_address server.allocator message) [
      | none ↦ hung
      | some (address, next) ↦
          offer_address net (record server { allocator = next }) message address now
    ]

-- ===== src/Examples/Answers.antt =====
-- Theorems on the handlers of server/src/messages at a server with one pool.
use dhcpv4_server_with_gui_c.Prelude.{
  ℕ, ◌≡◌, ◌⊎◌, refl, Bool, true, false, some, List, [], ◌∷◌, ◌==◌, if◌then◌else◌, All, map,
}
use dhcpv4_server_with_gui_c.Prelude.Bytes.{bit_of, raise_bit}
use dhcpv4_server_with_gui_c.Options.{DhcpOption, dhcp_option_new_values}
use dhcpv4_server_with_gui_c.Pool.{
  address_belongs_to_pool, address_pool_get_address_allocation, address_pool_set_address_allocation,
}
use dhcpv4_server_with_gui_c.Allocator.{allocator_is_address_available, find_pool}
use dhcpv4_server_with_gui_c.Allocator.Address.{is_served}
use dhcpv4_server_with_gui_c.Allocator.Any.{IsDepleted}
use dhcpv4_server_with_gui_c.Allocator.Apart.{IsSound}
use dhcpv4_server_with_gui_c.Packet.{DhcpMessage, dhcp_message_new, dhcp_packet_build, magic_cookie}
use dhcpv4_server_with_gui_c.TransCache.{trans_cache_new}
use dhcpv4_server_with_gui_c.Timer.{Timer, once, trans_timer_cb_clear}
use dhcpv4_server_with_gui_c.Server.{Server}
use dhcpv4_server_with_gui_c.Answer.{Network, Outcome, Sent, finished, crashed, hung}
use dhcpv4_server_with_gui_c.Request.{message_dhcprequest_handle}
use dhcpv4_server_with_gui_c.Codec.{dhcp_options_serialize}
use dhcpv4_server_with_gui_c.Discover.{message_dhcpdiscover_handle}
use dhcpv4_server_with_gui_c.Discover.Laws.{IsOffer, discover_offers}
use dhcpv4_server_with_gui_c.Examples.{lan, lan_start, lan_options, lan-IsValid, used_lan}

abbrev pub net : Network
net = record { bound_ip = 3232235777; broadcast_addr = 3232236031; sends = true }

-- One hour, and 192.168.1.1
abbrev pub defaults : List DhcpOption
defaults =
    dhcp_option_new_values 51 4 (16 ∷ 14 ∷ 0 ∷ 0 ∷ [])
    ∷ dhcp_option_new_values 54 4 (1 ∷ 1 ∷ 168 ∷ 192 ∷ [])
    ∷ []

abbrev pub timer : Timer
timer = record {
  type = once;
  dtime = 60;
  rtime = 60;
  is_running = false;
  ltime = 5;
  cb = some trans_timer_cb_clear;
}

abbrev pub server : Server
server = record {
  allocator = record { default_options = defaults; address_pools = lan ∷ [] };
  trans_cache = trans_cache_new 2 60 5;
  lease_expiration_check = timer;
  files = [];
}

abbrev pub discover : DhcpMessage
discover = record dhcp_message_new {
  type = 1;
  xid = 7;
  cookie = magic_cookie;
  dhcp_options = dhcp_option_new_values 55 2 (1 ∷ 3 ∷ []) ∷ [];
}

-- The parts of an outcome that is an end
abbrev pub ended : Outcome → Bool × Server × List Sent
ended (finished done after sent) = (done, after, sent)
ended crashed = (false, server, [])
ended hung = (false, server, [])

abbrev offered : Bool × Server × List Sent
offered = ended (message_dhcpdiscover_handle net server discover 9)

offers : message_dhcpdiscover_handle net server discover 9 ≡ finished offered.0 offered.1 offered.2
unfolding message_dhcpdiscover_handle address_pool_get_address_allocation address_belongs_to_pool
    address_pool_set_address_allocation lan_options dhcp_options_serialize bit_of raise_bit
    dhcp_packet_build dhcp_option_new_values
offers = refl

unserved : is_served server.allocator 0 ≡ false
unfolding find_pool address_belongs_to_pool
unserved = refl

discover_offers_example :
    (All IsDepleted server.allocator.address_pools
      × (offered.0 ≡ false)
      × (offered.1 ≡ server)
      × (offered.2 ≡ []))
    ⊎ ((x : ℕ) × (allocator_is_address_available server.allocator x ≡ true)
        × IsSound offered.1.allocator
        × (offered.1.files ≡ server.files)
        × ((b : ℕ)
            → allocator_is_address_available offered.1.allocator b
              ≡ (if x == b then false else allocator_is_address_available server.allocator b))
        × IsOffer net discover x offered.0 offered.2)
discover_offers_example =
    discover_offers net server discover 9 offered.0 offered.1 offered.2
      (record { valid = (lan-IsValid, tt); apart = (tt, tt) }) unserved offers

-- The server after the offer, the address in use
abbrev pub offering : Server
offering = record server {
  allocator = record { default_options = defaults; address_pools = used_lan ∷ [] };
  trans_cache =
      (record {
        transaction_begin = 30;
        xid = 7;
        num_of_messages = 2;
        messages_ll = discover ∷ record discover { type = 2; yiaddr = lan_start } ∷ [];
        timer = record timer { is_running = true };
      })
      ∷ [];
}

abbrev o54 : DhcpOption
o54 = dhcp_option_new_values 54 4 (1 ∷ 1 ∷ 168 ∷ 192 ∷ [])

abbrev pub request : DhcpMessage
request = record discover {
  type = 3;
  dhcp_options =
      o54
      ∷ dhcp_option_new_values 50 4 (16 ∷ 1 ∷ 168 ∷ 192 ∷ [])
      ∷ dhcp_option_new_values 55 2 (1 ∷ 3 ∷ [])
      ∷ [];
}

abbrev requested : Bool × Server × List Sent
requested = ended (message_dhcprequest_handle net offering request request.dhcp_options 12)

-- It is the second way: an acknowledgement of the requested address, 192.168.1.16, is sent.
acknowledged : map (λ (s : Sent). s.packet.yiaddr) requested.2 ≡ 268544192 ∷ []
unfolding message_dhcprequest_handle address_pool_get_address_allocation address_belongs_to_pool
    address_pool_set_address_allocation lan_options dhcp_options_serialize bit_of raise_bit
    dhcp_packet_build dhcp_option_new_values
acknowledged = refl

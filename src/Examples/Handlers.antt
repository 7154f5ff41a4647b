-- ===== src/Examples/Handlers.antt =====
-- Theorems on the server (server/src/transaction.c, server/src/messages/dhcprelease.c) at a server
-- with one address in use.
use dhcpv4_server_with_gui_c.Prelude.{
  false, ℕ, suc, ◌≡◌, refl, true, none, some, [], ◌∷◌, arith, ◌==◌, if◌then◌else◌,
}
use dhcpv4_server_with_gui_c.Prelude.Bytes.{bit_of}
use dhcpv4_server_with_gui_c.Pool.{address_pool_get_address_allocation, address_belongs_to_pool}
use dhcpv4_server_with_gui_c.Timer.{Timer, once, trans_timer_cb_clear}
use dhcpv4_server_with_gui_c.Allocator.{find_pool, allocator_is_address_available}
use dhcpv4_server_with_gui_c.Allocator.Pools.{pools_read}
use dhcpv4_server_with_gui_c.Allocator.Address.{AreValid, is_address_in_use}
use dhcpv4_server_with_gui_c.Packet.{DhcpMessage, dhcp_message_new}
use dhcpv4_server_with_gui_c.Transaction.{trans_search_for}
use dhcpv4_server_with_gui_c.TransCache.{at}
use dhcpv4_server_with_gui_c.Lease.{Lease, leases_of, find_lease}
use dhcpv4_server_with_gui_c.Lease.Laws.{occurrences}
use dhcpv4_server_with_gui_c.Server.{Server, call_trans_timer_cb_clear, message_dhcprelease_handle}
use dhcpv4_server_with_gui_c.Server.Timeout.{timeout_lem}
use dhcpv4_server_with_gui_c.Server.Release.{release_handle_lem}
use dhcpv4_server_with_gui_c.Examples.{lan_start, used_lan, used_lan-IsValid, busy_home}

abbrev stopped : Timer
stopped = record {
  type = once;
  dtime = 60;
  rtime = 60;
  is_running = false;
  ltime = 90;
  cb = some trans_timer_cb_clear;
}

abbrev offer : DhcpMessage
offer = record dhcp_message_new { type = 2; xid = 7; yiaddr = lan_start }

abbrev lease : Lease
lease = record {
  address = lan_start;
  subnet = 4294967040;
  pool_name = "lan";
  lease_start = 100;
  lease_expire = 200;
  xid = 7;
  flags = 0;
  client_mac_address = 2 ∷ 0 ∷ 0 ∷ 0 ∷ 0 ∷ 1 ∷ [];
}

abbrev server : Server
server = record {
  allocator = busy_home;
  trans_cache =
      (record {
        transaction_begin = 30;
        xid = 7;
        num_of_messages = 1;
        messages_ll = offer ∷ [];
        timer = stopped;
      })
      ∷ [];
  lease_expiration_check = stopped;
  files = ("lan", lease ∷ []) ∷ [];
}

start_in_use : is_address_in_use busy_home lan_start ≡ true
unfolding pools_read address_pool_get_address_allocation find_pool bit_of address_belongs_to_pool
start_in_use = refl

offered : trans_search_for (at server.trans_cache 0) 2 ≡ some offer
unfolding trans_search_for dhcp_message_new
offered = refl

not_acked : trans_search_for (at server.trans_cache 0) 5 ≡ none
unfolding trans_search_for dhcp_message_new
not_acked = refl

timeout_lem_example :
    let after = call_trans_timer_cb_clear server 0 91 in
    AreValid after.allocator
    × ((at after.trans_cache 0).messages_ll ≡ [])
    × ((b : ℕ)
        → allocator_is_address_available after.allocator b
          ≡ (if offer.yiaddr == b then true else allocator_is_address_available busy_home b))
timeout_lem_example =
    timeout_lem server 0 91 offer (used_lan-IsValid, tt) (omega arith) offered not_acked
      start_in_use

abbrev release : DhcpMessage
release = record dhcp_message_new { type = 7; xid = 8; ciaddr = lan_start }

pool_found : find_pool busy_home.address_pools lan_start ≡ some used_lan
unfolding find_pool address_belongs_to_pool
pool_found = refl

lease_found : find_lease (leases_of server.files "lan") lan_start ≡ some lease
unfolding find_lease leases_of
lease_found = refl

release_handle_lem_example :
    let (done, after) = message_dhcprelease_handle server release in
    (done ≡ true)
    × AreValid after.allocator
    × (occurrences (leases_of server.files "lan") lan_start
        ≡ suc (occurrences (leases_of after.files "lan") lan_start))
    × ((b : ℕ)
        → allocator_is_address_available after.allocator b
          ≡ (if lan_start == b then true else allocator_is_address_available busy_home b))
release_handle_lem_example =
    release_handle_lem server release used_lan lease (used_lan-IsValid, tt) (λ e. omega arith)
      pool_found lease_found start_in_use

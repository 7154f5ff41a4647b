-- ===== src/Examples/Sessions.antt =====
-- Theorems on timers, lists, transactions, leases and the server (server/src/timer.c,
-- server/src/utils/llist.c, server/src/transaction.c, server/src/transaction_cache.c,
-- server/src/lease.c, server/src/dhcp_server.c) at small states.
use dhcpv4_server_with_gui_c.Prelude.{
  ℕ, ◌+◌, ◌≡◌, ◌⊎◌, inr, refl, true, false, none, some, List, [], ◌∷◌, ◌++◌, arith, All,
}
use dhcpv4_server_with_gui_c.Timer.{
  Timer, once, trans_timer_cb_clear, check_lease_expirations, repeat, timer_nocb, calls,
  timer_update,
}
use dhcpv4_server_with_gui_c.Timer.Deadline.{deadline, updates, update-deadline}
use dhcpv4_server_with_gui_c.Llist.{node, llist_foreach}
use dhcpv4_server_with_gui_c.Llist.Walk.{foreach_visits}
use dhcpv4_server_with_gui_c.Packet.{DhcpMessage, dhcp_message_new}
use dhcpv4_server_with_gui_c.Transaction.{trans_new, trans_add, allocated}
use dhcpv4_server_with_gui_c.Transaction.Invariant.{
  IsValid, new-IsValid, clear_stopped, add-IsValid,
}
use dhcpv4_server_with_gui_c.TransCache.{
  trans_cache_new, trans_cache_add_message, trans_cache_retrieve_transaction,
  cache_get_next_transaction, trans_cache_retrieve_message_last,
}
use dhcpv4_server_with_gui_c.TransCache.Invariant.{AreValid, new-AreValid, add_message_lem}
use dhcpv4_server_with_gui_c.Lease.{Lease, LeaseFiles, leases_of, find_lease}
use dhcpv4_server_with_gui_c.Server.{Server, check_lease}
use dhcpv4_server_with_gui_c.Server.Expiry.{lease_at, check_lease-last}
use dhcpv4_server_with_gui_c.Examples.{lan, lan_start, lan_end, busy_home}

abbrev ten_seconds : Timer
ten_seconds = record {
  type = once;
  dtime = 10;
  rtime = 10;
  is_running = true;
  ltime = 100;
  cb = some trans_timer_cb_clear;
}

update-deadline_example :
    All (λ r. r ≡ timer_nocb) (updates ten_seconds (103 ∷ 103 ∷ 109 ∷ [])).0
    × ((timer_update (updates ten_seconds (103 ∷ 103 ∷ 109 ∷ [])).1 111).0
        ≡ calls trans_timer_cb_clear 111)
    × ((timer_update (updates ten_seconds (103 ∷ 103 ∷ 109 ∷ [])).1 111).1.is_running ≡ false)
    × (deadline (timer_update (updates ten_seconds (103 ∷ 103 ∷ 109 ∷ [])).1 111).1 ≡ 111 + 10)
update-deadline_example =
    update-deadline ten_seconds (103 ∷ 103 ∷ 109 ∷ []) 111 trans_timer_cb_clear refl refl
      (omega arith) (omega arith, (omega arith, (omega arith, omega arith))) (omega arith)
      (omega arith)

abbrev numbers : List ℕ
numbers = 5 ∷ 6 ∷ 7 ∷ []

foreach_visits_example : llist_foreach numbers ≡ node numbers
foreach_visits_example = foreach_visits numbers

abbrev message : DhcpMessage
message = record dhcp_message_new { type = 1; xid = 77 }

add-IsValid_example :
    ((trans_add (trans_new 60 5) message 9).0 ≡ true)
    × IsValid (trans_add (trans_new 60 5) message 9).1
    × ((trans_add (trans_new 60 5) message 9).1.timer.is_running ≡ true)
    × ((trans_add (trans_new 60 5) message 9).1.xid ≡ 77)
    × ((trans_add (trans_new 60 5) message 9).1.messages_ll
        ≡ (trans_new 60 5).messages_ll ++ (message ∷ []))
add-IsValid_example = add-IsValid (trans_new 60 5) message 9 (new-IsValid 60 5) (inr new_stopped)
  where
    new_stopped : (trans_new 60 5).timer.is_running ≡ false
    new_stopped = unfold trans_new in clear_stopped (allocated 60 5) 5

add_message_lem_example :
    let r = trans_cache_add_message (trans_cache_new 2 60 5) message 9 in
    ((r.0 ≡ false)
      × (r.1 ≡ trans_cache_new 2 60 5)
      × (trans_cache_retrieve_transaction (trans_cache_new 2 60 5) 77 0 ≡ none)
      × (cache_get_next_transaction (trans_cache_new 2 60 5) 0 ≡ none))
    ⊎ ((r.0 ≡ true)
        × AreValid r.1
        × (trans_cache_retrieve_message_last r.1 77 1 ≡ some (record message { time = 9 })))
add_message_lem_example = add_message_lem (trans_cache_new 2 60 5) message 9 (new-AreValid 2 60 5)

abbrev lease : Lease
lease = record {
  address = lan_start;
  subnet = 4294967040;
  pool_name = "lan";
  lease_start = 100;
  lease_expire = 200;
  xid = 77;
  flags = 0;
  client_mac_address = 2 ∷ 0 ∷ 0 ∷ 0 ∷ 0 ∷ 1 ∷ [];
}

abbrev last_lease : Lease
last_lease = record lease { address = lan_end }

abbrev files : LeaseFiles
files = ("lan", last_lease ∷ []) ∷ []

no_lease : find_lease (leases_of files "lan") lan_start ≡ none
unfolding find_lease leases_of
no_lease = refl

abbrev server : Server
server = record {
  allocator = busy_home;
  trans_cache = [];
  lease_expiration_check = record ten_seconds { type = repeat; cb = some check_lease_expirations };
  files = files;
}

check_lease-last_example :
    lease_at (check_lease 1000 lan server).1 "lan" lan_end ≡ lease_at server "lan" lan_end
check_lease-last_example = check_lease-last 1000 lan server lan_end (omega arith) (omega arith)

-- ===== src/Server.antt =====
-- server/src/dhcp_server.h, the timers of server/src/dhcp_server.c, trans_timer_cb_clear of
-- server/src/transaction.c, and the handlers of server/src/messages/dhcprelease.c and
-- server/src/messages/dhcpdecline.c. Of dhcp_server_t it keeps what these use, and the lease files
-- stand beside it. `now` is the time that time(NULL) returns throughout one call.
pub mod Expiry
pub mod Timeout
pub mod Release
pub mod Invariant
use Prim.Native.String.{String}
use dhcpv4_server_with_gui_c.Prelude.{
  ℕ, zero, suc, ◌+◌, ◌-◌, Bool, true, false, not, ◌&&◌, Option, none, some, List, [], ◌∷◌, ltb, leb,
  ◌==◌, if◌then◌else◌, length, set,
}
use dhcpv4_server_with_gui_c.Pool.{AddressPool}
use dhcpv4_server_with_gui_c.Allocator.{
  Allocator, AllocatorStatus, allocator_is_address_available, allocator_release_address,
  allocator_request_this_address,
}
use dhcpv4_server_with_gui_c.Timer.{
  Timer, TimerResult, timer_nocb, timer_error, timer_stopped, calls, repeat,
  check_lease_expirations, trans_timer_cb_clear, timer_new, timer_update,
}
use dhcpv4_server_with_gui_c.Packet.{DhcpMessage}
use dhcpv4_server_with_gui_c.Transaction.{Transaction, trans_search_for, trans_clear}
use dhcpv4_server_with_gui_c.TransCache.{at, trans_cache_retrieve_message_last}
use dhcpv4_server_with_gui_c.Lease.{
  Lease, LeaseFiles, LeaseStatus, lease_retrieve, lease_retrieve_address, lease_remove,
}

-- `dhcp_server_t` without its settings and its access control lists, which no handler and no timer
-- reads, and the lease files
pub record Server : Type 0 where
  pub allocator : Allocator
  pub trans_cache : List Transaction
  pub lease_expiration_check : Timer
  pub files : LeaseFiles

unfoldable pub init_dhcp_server_timers : Server → ℕ → ℕ → Server
unfolding timer_new
init_dhcp_server_timers server period now = record server {
  lease_expiration_check = timer_new repeat period true (some check_lease_expirations) now;
}

-- A return value of lease_remove that is not negative
unfoldable pub is_removed : LeaseStatus → Bool
is_removed LeaseStatus.ok = true
is_removed LeaseStatus.exists = false
is_removed LeaseStatus.doesnt_exist = false
is_removed LeaseStatus.invalid_json = false
is_removed LeaseStatus.error = false

-- A return value of the allocator that is 0
unfoldable pub is_ok : AllocatorStatus → Bool
is_ok AllocatorStatus.ok = true
is_ok AllocatorStatus.error = false
is_ok AllocatorStatus.addr_reserved = false
is_ok AllocatorStatus.addr_in_use = false
is_ok AllocatorStatus.addr_not_in_use = false
is_ok AllocatorStatus.pool_duplicite = false
is_ok AllocatorStatus.option_duplicite = false
is_ok AllocatorStatus.option_invalid = false
is_ok AllocatorStatus.pool_depleted = false
is_ok AllocatorStatus.cannot_create_lease = false

-- The end of the loop's body in check_lease, for the lease of address `a`. The number is how much
-- it adds to `released_leases`.
unfoldable pub expire : Server → Lease → ℕ → ℕ × Server
unfolding lease_remove allocator_release_address is_removed
expire server lease a =
    let (status, files) = lease_remove server.files lease in
    let kept = record server { files = files } in
    if is_removed status
    then (1, record kept { allocator = (allocator_release_address server.allocator a).1 })
    else (0, kept)

-- The body of the loop of check_lease. lease_retrieve gives a lease exactly when it returns 0.
unfoldable pub check_address : ℕ → String → Server → ℕ → ℕ × Server
unfolding allocator_is_address_available lease_retrieve expire
check_address current_time name server a =
    if allocator_is_address_available server.allocator a
    then (0, server)
    else elim (lease_retrieve server.files a (some name)).1 [
      | some lease ↦
          if ltb current_time lease.lease_expire then (0, server) else expire server lease a
      | none ↦ (0, server)
    ]

-- The loop of check_lease over `count` addresses from `a` on
unfoldable pub check_loop : ℕ → ℕ → ℕ → String → Server → ℕ × Server
unfolding check_address
check_loop zero a current_time name server = (0, server)
check_loop (suc count) a current_time name server =
    let (released, server) = check_address current_time name server a in
    let (more, server) = check_loop count (a + 1) current_time name server in
    (released + more, server)

-- The loop runs while `a < end_address`.
unfoldable pub check_lease : ℕ → AddressPool → Server → ℕ × Server
unfolding check_loop
check_lease current_time pool server =
    check_loop (pool.end_address - pool.start_address) pool.start_address current_time pool.name
      server

-- The loop of check_lease_expirations; it writes to the pools, but to none of the fields it reads.
unfoldable pub check_pools : ℕ → List AddressPool → Server → ℕ × Server
unfolding check_lease
check_pools check_time [] server = (0, server)
check_pools check_time (pool ∷ pools) server =
    let (released, server) = check_lease check_time pool server in
    let (more, server) = check_pools check_time pools server in (released + more, server)

unfoldable pub call_check_lease_expirations : ℕ → Server → ℕ × Server
unfolding check_pools
call_check_lease_expirations check_time server =
    check_pools check_time server.allocator.address_pools server

-- trans_timer_cb_clear for the transaction at an index
unfoldable pub call_trans_timer_cb_clear : Server → ℕ → ℕ → Server
unfolding trans_search_for trans_clear allocator_release_address
call_trans_timer_cb_clear server index now =
    let trans = at server.trans_cache index in
    let cleared = set server.trans_cache index (trans_clear trans now) in
    elim (trans_search_for trans 2) [
      | none ↦ record server { trans_cache = cleared }
      | some offer ↦ elim (trans_search_for trans 5) [
        | none ↦ record server {
          trans_cache = cleared;
          allocator = (allocator_release_address server.allocator offer.yiaddr).1;
        }
        | some ack ↦ record server { trans_cache = cleared }
      ]
    ]

-- The callback of a transaction's timer is trans_timer_cb_clear.
unfoldable pub trans_update_timer : Server → ℕ → ℕ → Server
unfolding timer_update call_trans_timer_cb_clear
trans_update_timer server index now =
    let trans = at server.trans_cache index in
    let (result, timer) = timer_update trans.timer now in
    let ticked = record server {
      trans_cache = set server.trans_cache index (record trans { timer = timer });
    } in
    elim result [
      | calls trans_timer_cb_clear time ↦ call_trans_timer_cb_clear ticked index now
      | _ ↦ ticked
    ]

-- The loop of update_timers over `count` transactions from `i` on
unfoldable pub update_transactions : ℕ → ℕ → Server → ℕ → Server
unfolding trans_update_timer
update_transactions zero i server now = server
update_transactions (suc count) i server now =
    let updated =
      if (at server.trans_cache i).timer.is_running
      then trans_update_timer server i now
      else server in
    update_transactions count (i + 1) updated now

unfoldable pub update_timers : Server → ℕ → Server
unfolding update_transactions timer_update call_check_lease_expirations
update_timers server now =
    let server = update_transactions (length server.trans_cache) 0 server now in
    let (result, timer) = timer_update server.lease_expiration_check now in
    let ticked = record server { lease_expiration_check = timer } in
    elim result [
      | calls check_lease_expirations time ↦ (call_check_lease_expirations time ticked).1
      | _ ↦ ticked
    ]

-- The first part is whether the handler returns 0.
unfoldable pub message_dhcprelease_handle : Server → DhcpMessage → Bool × Server
unfolding lease_retrieve_address lease_remove allocator_release_address is_removed is_ok
message_dhcprelease_handle server message =
    if message.ciaddr == 0
    then (false, server)
    else elim (lease_retrieve_address server.files message.ciaddr
        server.allocator.address_pools).1 [
          | none ↦ (false, server)
          | some lease ↦
              let (status, files) = lease_remove server.files lease in
              let (rv, allocator) = allocator_release_address server.allocator lease.address in
              let kept = record server { files = files } in
              if is_removed status
              then (is_ok rv, record kept { allocator = allocator })
              else (false, kept)
        ]

unfoldable pub message_dhcpdecline_handle : Server → DhcpMessage → Bool × Server
unfolding trans_cache_retrieve_message_last allocator_is_address_available
    allocator_request_this_address
message_dhcpdecline_handle server message =
    elim (trans_cache_retrieve_message_last server.trans_cache message.xid 5) [
      | none ↦ (false, server)
      | some ack ↦
          if ack.yiaddr == 0
          then (false, server)
          else if allocator_is_address_available server.allocator ack.yiaddr
          then (
            true,
            record server {
              allocator = (allocator_request_this_address server.allocator ack.yiaddr).2;
            },
          )
          else (true, server)
    ]

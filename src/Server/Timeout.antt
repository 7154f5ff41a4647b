-- ===== src/Server/Timeout.antt =====
-- What becomes of an offer when its transaction times out (trans_timer_cb_clear of
-- server/src/transaction.c).
use dhcpv4_server_with_gui_c.Prelude.{
  ℕ, ◌<◌, ◌≡◌, ap, true, none, some, List, [], ◌==◌, if◌then◌else◌, length, set, get_or-set_self,
}
use dhcpv4_server_with_gui_c.Allocator.{allocator_is_address_available}
use dhcpv4_server_with_gui_c.Allocator.Address.{AreValid, is_address_in_use, release-refines}
use dhcpv4_server_with_gui_c.Packet.{DhcpMessage}
use dhcpv4_server_with_gui_c.Transaction.{Transaction, trans_new, trans_clear, trans_search_for}
use dhcpv4_server_with_gui_c.TransCache.{at}
use dhcpv4_server_with_gui_c.Server.{Server, call_trans_timer_cb_clear}

cleared :
    (ts : List Transaction) (i now : ℕ)
    → i < length ts
    → (at (set ts i (trans_clear (at ts i) now)) i).messages_ll ≡ []
unfolding trans_clear
cleared ts i now h =
    ap (λ (t : Transaction). t.messages_ll)
      (get_or-set_self ts i (trans_clear (at ts i) now) (trans_new 0 0) h)

-- With valid pools, when the timer of a transaction expires that holds an offer and no
-- acknowledgement, and the address of the offer is in use, the transaction is emptied, the
-- address becomes available again, and every other address stays as it was.
pub timeout_lem :
    (server : Server) (index now : ℕ) (offer : DhcpMessage)
    → AreValid server.allocator
    → index < length server.trans_cache
    → trans_search_for (at server.trans_cache index) 2 ≡ some offer
    → trans_search_for (at server.trans_cache index) 5 ≡ none
    → is_address_in_use server.allocator offer.yiaddr ≡ true
    → let after = call_trans_timer_cb_clear server index now in
      AreValid after.allocator
      × ((at after.trans_cache index).messages_ll ≡ [])
      × ((b : ℕ)
          → allocator_is_address_available after.allocator b ≡ (
              if offer.yiaddr == b
              then true
              else allocator_is_address_available server.allocator b))
unfolding call_trans_timer_cb_clear
timeout_lem server index now offer valid small offered no_ack used =
    let (rv, v, free, taken) = release-refines server.allocator offer.yiaddr valid used in
    rw (call_trans_timer_cb_clear, offered, no_ack)
      (v, cleared server.trans_cache index now small, free)

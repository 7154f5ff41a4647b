-- ===== src/Answer/Forgotten.antt =====
-- An acknowledgement (server/src/messages/dhcpack.c) and the timer of its transaction
-- (server/src/transaction.c).
use mathlib.Core.Path.{subst}
use dhcpv4_server_with_gui_c.Prelude.{
  ℕ, ◌<◌, ◌≡◌, ◌∙◌, refl, ap, inl, inr, true, false, none, some, List, [], ◌∷◌, ◌++◌, ◌==◌, arith,
  length, length-set, get_or-set_self, All-get_or, if◌then◌else◌,
}
use dhcpv4_server_with_gui_c.Allocator.{allocator_is_address_available}
use dhcpv4_server_with_gui_c.Allocator.Address.{is_address_in_use}
use dhcpv4_server_with_gui_c.Packet.{DhcpMessage, dhcp_message_new}
use dhcpv4_server_with_gui_c.Transaction.{
  Transaction, trans_new, trans_add, search_for, trans_search_for,
}
use dhcpv4_server_with_gui_c.Transaction.Invariant.{IsValid, new-IsValid, add-IsValid}
use dhcpv4_server_with_gui_c.TransCache.{
  at, trans_cache_retrieve_transaction, trans_cache_add_message,
}
use dhcpv4_server_with_gui_c.TransCache.Invariant.{AreValid, add_own, stamped, retrieve_found}
use dhcpv4_server_with_gui_c.Server.{Server, call_trans_timer_cb_clear}
use dhcpv4_server_with_gui_c.Server.Invariant.{IsServing}
use dhcpv4_server_with_gui_c.Server.Timeout.{timeout_lem}
use dhcpv4_server_with_gui_c.Answer.{Network, Sent, finished, reply, message_dhcpack_build}
use dhcpv4_server_with_gui_c.Answer.Laws.{IsDelivered, answered}
use dhcpv4_server_with_gui_c.Answer.Headers.{ack_header, ack_target, ack-IsDelivered}

-- A message of another type at the end is not found.
search_for-append :
    (ms : List DhcpMessage) (m : DhcpMessage) (type : ℕ)
    → (m.type == type) ≡ false
    → search_for (ms ++ (m ∷ [])) type ≡ search_for ms type
unfolding search_for
search_for-append [] m type e = rw e refl
search_for-append (k ∷ ms) m type e = ground (arith, search_for-append ms m type e)

-- A transaction that stores one more message of its xid, seen by a type that the message is not of
search-add :
    (cache : List Transaction) (m : DhcpMessage) (now i type : ℕ)
    → AreValid cache
    → trans_cache_retrieve_transaction cache m.xid 0 ≡ some i
    → (m.type == type) ≡ false
    → (i < length (trans_cache_add_message cache m now).1)
      × (trans_search_for (at (trans_cache_add_message cache m now).1 i) type
          ≡ trans_search_for (at cache i) type)
unfolding trans_search_for
search-add cache m now i type valid e other =
    let (j, i_is, l, x) = retrieve_found cache m.xid 0 i e (trans_new 0 0) in
    let same : i ≡ j = omega arith in
    let small : i < length cache = omega arith in
    let own : (at cache i).xid ≡ m.xid = rw same x in
    let t = (trans_add (at cache i) (stamped m now) now).1 in
    let (done, v, on, named, held) =
      add-IsValid (at cache i) (stamped m now) now
        (All-get_or IsValid cache i _ valid (new-IsValid 0 0)) (inl own) in
    let longer : length (trans_cache_add_message cache m now).1 ≡ length cache =
      ap (λ r. length r.1) (add_own cache m now i e) ∙ length-set cache i t in
    (
      omega arith,
      ap (λ r. trans_search_for (at r.1 i) type) (add_own cache m now i e)
          ∙ ap (λ (u : Transaction). trans_search_for u type)
              (get_or-set_self cache i t (trans_new 0 0) small)
          ∙ ap (λ ms. search_for ms type) held
          ∙ search_for-append (at cache i).messages_ll (stamped m now) type other,
    )

-- On a sound server, in a transaction with an offer whose address is in use and no message of type
-- DHCP_ACK, an acknowledgement that is built, sent and stored does not keep the transaction's timer
-- from making the address of the offer available again: the stored acknowledgement is not found
-- as one.
pub ack_forgotten :
    (net : Network) (s : Server) (request offer : DhcpMessage) (duration address now i later : ℕ)
    (after : Server) (sent : List Sent)
    → IsServing s
    → trans_cache_retrieve_transaction s.trans_cache request.xid 0 ≡ some i
    → trans_search_for (at s.trans_cache i) 2 ≡ some offer
    → trans_search_for (at s.trans_cache i) 5 ≡ none
    → is_address_in_use s.allocator offer.yiaddr ≡ true
    → message_dhcpack_build net s request duration address now ≡ finished true after sent
    → (is_address_in_use after.allocator offer.yiaddr ≡ true)
      × (allocator_is_address_available
            (call_trans_timer_cb_clear after i later).allocator
            offer.yiaddr
          ≡ true)
unfolding reply dhcp_message_new
ack_forgotten net s request offer duration address now i later after sent h found offered unacked
      used e =
    let header = ack_header net request address request.giaddr in
    let delivered : IsDelivered net s header 5 (ack_target net request) now
        (finished true after sent) =
      subst (IsDelivered net s header 5 (ack_target net request) now) e
        (ack-IsDelivered net s request duration address now) in
    elim delivered [
      | inl (failed, same, silent) ↦ absurd (ground arith)
      | inr (os, typed, magic, out, done, same) ↦
          let ack = answered header os in
          let (small, offer_kept) = search-add s.trans_cache ack now i 2 h.cache found refl in
          let (small_too, none_kept) = search-add s.trans_cache ack now i 5 h.cache found refl in
          let cache = (trans_cache_add_message s.trans_cache ack now).1 in
          let next = record s { trans_cache = cache } in
          let (valid, emptied, free) =
            timeout_lem next i later offer h.allocator.valid small (offer_kept ∙ offered)
              (none_kept ∙ unacked) used in
          let there : (if offer.yiaddr == offer.yiaddr
                then true
                else allocator_is_address_available s.allocator offer.yiaddr)
              ≡ true =
            ground arith in
          rw same (used, free offer.yiaddr ∙ there)
    ]

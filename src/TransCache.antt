-- ===== src/TransCache.antt =====
-- server/src/transaction_cache.h and server/src/transaction_cache.c. The cache is the array of its
-- transactions, of its size; a pointer into it is an index.
pub mod Invariant
pub mod Armed
use dhcpv4_server_with_gui_c.Prelude.{
  ℕ, zero, suc, ◌+◌, Bool, true, false, not, Option, none, some, List, [], ◌∷◌, ◌==◌, if◌then◌else◌,
  get_or, set, replicate, map,
}
use dhcpv4_server_with_gui_c.Packet.{DhcpMessage}
use dhcpv4_server_with_gui_c.Transaction.{
  Transaction, trans_new, trans_clear, trans_add, trans_search_for, trans_search_for_last,
}

unfoldable pub trans_cache_new : ℕ → ℕ → ℕ → List Transaction
unfolding trans_new
trans_cache_new size time now = replicate size (trans_new time now)

-- The loop of cache_get_next_transaction, whose first index is `i`
unfoldable pub cache_get_next_transaction : List Transaction → ℕ → Option ℕ
cache_get_next_transaction [] i = none
cache_get_next_transaction (t ∷ ts) i =
    if not t.timer.is_running then some i else cache_get_next_transaction ts (i + 1)

-- The loop of trans_cache_retrieve_transaction, whose first index is `i`
unfoldable pub trans_cache_retrieve_transaction : List Transaction → ℕ → ℕ → Option ℕ
trans_cache_retrieve_transaction [] xid i = none
trans_cache_retrieve_transaction (t ∷ ts) xid i =
    if t.xid == xid then some i else trans_cache_retrieve_transaction ts xid (i + 1)

-- The transaction behind a pointer into the cache
abbrev pub at : List Transaction → ℕ → Transaction
at cache i = get_or cache i (trans_new 0 0)

unfoldable pub trans_cache_add_message :
    List Transaction → DhcpMessage → ℕ → Bool × List Transaction × DhcpMessage
unfolding trans_cache_retrieve_transaction cache_get_next_transaction trans_clear trans_add
trans_cache_add_message cache message now =
    let message = record message { time = now } in
    elim (trans_cache_retrieve_transaction cache message.xid 0) [
      | some i ↦
          let (done, t) = trans_add (at cache i) message now in (done, set cache i t, message)
      | none ↦ elim (cache_get_next_transaction cache 0) [
        | none ↦ (false, cache, message)
        | some i ↦
            let (done, t) = trans_add (trans_clear (at cache i) now) message now in
            (done, set cache i t, message)
      ]
    ]

unfoldable pub trans_cache_retrieve_message : List Transaction → ℕ → ℕ → Option DhcpMessage
unfolding trans_cache_retrieve_transaction trans_search_for
trans_cache_retrieve_message cache xid type = elim (trans_cache_retrieve_transaction cache xid 0) [
  | none ↦ none
  | some i ↦ trans_search_for (at cache i) type
]

unfoldable pub trans_cache_retrieve_message_last : List Transaction → ℕ → ℕ → Option DhcpMessage
unfolding trans_cache_retrieve_transaction trans_search_for_last
trans_cache_retrieve_message_last cache xid type =
    elim (trans_cache_retrieve_transaction cache xid 0) [
      | none ↦ none
      | some i ↦ trans_search_for_last (at cache i) type
    ]

unfoldable pub trans_cache_purge : List Transaction → ℕ → List Transaction
unfolding trans_clear
trans_cache_purge cache now = map (λ t. trans_clear t now) cache

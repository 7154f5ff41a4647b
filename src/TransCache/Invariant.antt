-- ===== src/TransCache/Invariant.antt =====
-- The cache of server/src/transaction_cache.c holds transactions in order, and finds what it
-- stored.
use dhcpv4_server_with_gui_c.Prelude.{
  ℕ, zero, suc, ◌+◌, ◌<◌, ◌≡◌, refl, ◌⊎◌, inl, inr, true, false, none, some, List, [], ◌∷◌, ◌++◌,
  arith, ◌==◌, length, get_or, set, All, All-set, All-get_or, All-replicate, Option-cases,
  get_or-set_self, Bool-cases, ==_iff,
}
use dhcpv4_server_with_gui_c.Packet.{DhcpMessage}
use dhcpv4_server_with_gui_c.Transaction.{
  Transaction, trans_new, trans_clear, trans_add, trans_search_for_last,
}
use dhcpv4_server_with_gui_c.Transaction.Invariant.{
  IsValid, new-IsValid, clear-IsValid, clear_stopped, add-IsValid, search_for_last-append,
}
use dhcpv4_server_with_gui_c.TransCache.{
  at, trans_cache_new, cache_get_next_transaction, trans_cache_retrieve_transaction,
  trans_cache_add_message, trans_cache_retrieve_message_last, trans_cache_purge,
}

-- The index that is found belongs to the first transaction with the xid.
pub retrieve_found :
    (cache : List Transaction) (xid k i : ℕ)
    → trans_cache_retrieve_transaction cache xid k ≡ some i
    → (d : Transaction)
    → (j : ℕ) × (i ≡ k + j) × (j < length cache) × ((get_or cache j d).xid ≡ xid)
unfolding trans_cache_retrieve_transaction
retrieve_found [] xid k i e d = ground arith
retrieve_found (t ∷ ts) xid k i e d = elim (Bool-cases (t.xid == xid)) [
  | inl here ↦ (0, ground arith, omega arith, (==_iff _ _).0 here)
  | inr other ↦
      let (j, i_is, l, x) = retrieve_found ts xid (k + 1) i (ground arith) d in
      (suc j, omega arith, omega arith, x)
]

next_found :
    (cache : List Transaction) (k i : ℕ)
    → cache_get_next_transaction cache k ≡ some i
    → (d : Transaction)
    → (j : ℕ) × (i ≡ k + j) × (j < length cache) × ((get_or cache j d).timer.is_running ≡ false)
unfolding cache_get_next_transaction
next_found [] k i e d = ground arith
next_found (t ∷ ts) k i e d = elim (Bool-cases t.timer.is_running) [
  | inr here ↦ (0, ground arith, omega arith, here)
  | inl other ↦
      let (j, i_is, l, x) = next_found ts (k + 1) i (ground arith) d in
      (suc j, omega arith, omega arith, x)
]

-- A transaction that is overwritten by one with an xid is found by that xid, when none or the same
-- was found before.
retrieve-set :
    (cache : List Transaction) (xid k j : ℕ) (t : Transaction)
    → j < length cache
    → t.xid ≡ xid
    → (trans_cache_retrieve_transaction cache xid k ≡ none)
      ⊎ (trans_cache_retrieve_transaction cache xid k ≡ some (k + j))
    → trans_cache_retrieve_transaction (set cache j t) xid k ≡ some (k + j)
unfolding trans_cache_retrieve_transaction
retrieve-set [] xid k j t l x h = absurd (omega arith)
retrieve-set (c ∷ cs) xid k zero t l x h = ground arith
retrieve-set (c ∷ cs) xid k (suc j) t l x h =
    let same : k + suc j ≡ k + 1 + j = omega arith in
    let other : (c.xid == xid) ≡ false = ground arith in
    let rest : (trans_cache_retrieve_transaction cs xid (k + 1) ≡ none)
        ⊎ (trans_cache_retrieve_transaction cs xid (k + 1) ≡ some (k + 1 + j)) =
      ground arith in
    let more = retrieve-set cs xid (k + 1) j t (omega arith) x rest in ground arith

abbrev pub AreValid : List Transaction → Type 0
AreValid cache = All IsValid cache

pub new-AreValid : (size time now : ℕ) → AreValid (trans_cache_new size time now)
unfolding trans_cache_new
new-AreValid size time now = All-replicate IsValid size (trans_new time now) (new-IsValid time now)

pub purge-AreValid : (cache : List Transaction) (now : ℕ) → AreValid (trans_cache_purge cache now)
unfolding trans_cache_purge
purge-AreValid [] now = tt
purge-AreValid (t ∷ ts) now = (clear-IsValid t now, purge-AreValid ts now)

-- The message as it is stored, with the time of its arrival.
abbrev pub stamped : DhcpMessage → ℕ → DhcpMessage
stamped m now = record m { time = now }

-- The transaction at an index is replaced by one that has the message as its last.
last_lem :
    (cache : List Transaction) (i : ℕ) (t : Transaction) (m : DhcpMessage) (ms : List DhcpMessage)
    → i < length cache
    → (trans_cache_retrieve_transaction cache m.xid 0 ≡ none)
      ⊎ (trans_cache_retrieve_transaction cache m.xid 0 ≡ some i)
    → t.xid ≡ m.xid
    → t.messages_ll ≡ ms ++ (m ∷ [])
    → trans_cache_retrieve_message_last (set cache i t) m.xid m.type ≡ some m
unfolding trans_cache_retrieve_message_last trans_search_for_last
last_lem cache i t m ms l h x held =
    let zero_left : 0 + i ≡ i = omega arith in
    let found = retrieve-set cache m.xid 0 i t l x (rw zero_left h) in
    rw
      (
        trans_cache_retrieve_message_last,
        found,
        zero_left,
        trans_search_for_last,
        get_or-set_self cache i t (trans_new 0 0) l,
        held,
      )
      (search_for_last-append ms m none)

-- A message is stored as the last of its transaction, or of a free one.
stored :
    (cache : List Transaction) (m : DhcpMessage) (now i : ℕ) (t : Transaction)
    → AreValid cache
    → IsValid t
    → (t.xid ≡ m.xid) ⊎ (t.timer.is_running ≡ false)
    → i < length cache
    → (trans_cache_retrieve_transaction cache m.xid 0 ≡ none)
      ⊎ (trans_cache_retrieve_transaction cache m.xid 0 ≡ some i)
    → ((trans_add t m now).0 ≡ true)
      × AreValid (set cache i (trans_add t m now).1)
      × (trans_cache_retrieve_message_last (set cache i (trans_add t m now).1) m.xid m.type
          ≡ some m)
stored cache m now i t valid v own l h =
    let (done, v', on, x, held) = add-IsValid t m now v own in
    (done, All-set IsValid cache i _ valid v', last_lem cache i _ m t.messages_ll l h x held)

-- The three ways of trans_cache_add_message.
pub add_own :
    (cache : List Transaction) (m : DhcpMessage) (now i : ℕ)
    → trans_cache_retrieve_transaction cache m.xid 0 ≡ some i
    → trans_cache_add_message cache m now ≡ (
      (trans_add (at cache i) (stamped m now) now).0,
      set cache i (trans_add (at cache i) (stamped m now) now).1,
      stamped m now,
    )
unfolding trans_cache_add_message
add_own cache m now i e = rw (trans_cache_add_message, e) refl

pub add_next :
    (cache : List Transaction) (m : DhcpMessage) (now i : ℕ)
    → trans_cache_retrieve_transaction cache m.xid 0 ≡ none
    → cache_get_next_transaction cache 0 ≡ some i
    → trans_cache_add_message cache m now ≡ (
      (trans_add (trans_clear (at cache i) now) (stamped m now) now).0,
      set cache i (trans_add (trans_clear (at cache i) now) (stamped m now) now).1,
      stamped m now,
    )
unfolding trans_cache_add_message
add_next cache m now i e f = rw (trans_cache_add_message, e, f) refl

pub add_full :
    (cache : List Transaction) (m : DhcpMessage) (now : ℕ)
    → trans_cache_retrieve_transaction cache m.xid 0 ≡ none
    → cache_get_next_transaction cache 0 ≡ none
    → trans_cache_add_message cache m now ≡ (false, cache, stamped m now)
unfolding trans_cache_add_message
add_full cache m now e f = rw (trans_cache_add_message, e, f) refl

-- On a valid cache a message is refused, with the cache unchanged, only when no transaction has its
-- xid and every timer runs. Otherwise it is stored: the cache is valid again, and looking up the
-- last message of its type in its transaction finds it, with the time of its arrival.
pub add_message_lem :
    (cache : List Transaction) (m : DhcpMessage) (now : ℕ)
    → AreValid cache
    → let r = trans_cache_add_message cache m now in
      ((r.0 ≡ false)
        × (r.1 ≡ cache)
        × (trans_cache_retrieve_transaction cache m.xid 0 ≡ none)
        × (cache_get_next_transaction cache 0 ≡ none))
      ⊎ ((r.0 ≡ true)
          × AreValid r.1
          × (trans_cache_retrieve_message_last r.1 m.xid m.type ≡ some (record m { time = now })))
add_message_lem cache m now valid =
    elim (Option-cases (trans_cache_retrieve_transaction cache m.xid 0)) [
      | inr (i, e) ↦
          let (j, i_is, l, x) = retrieve_found cache m.xid 0 i e (trans_new 0 0) in
          let same : i ≡ j = omega arith in
          let small : i < length cache = omega arith in
          rw (add_own cache m now i e) (
            inr (
              stored cache (stamped m now) now i (at cache i) valid
                (All-get_or IsValid cache i _ valid (new-IsValid 0 0)) (inl (rw same x)) small
                (inr e)))
      | inl e ↦ elim (Option-cases (cache_get_next_transaction cache 0)) [
        | inl full ↦ rw (add_full cache m now e full) (inl (refl, refl, e, full))
        | inr (i, free) ↦
            let (j, i_is, l, x) = next_found cache 0 i free (trans_new 0 0) in
            let small : i < length cache = omega arith in
            rw (add_next cache m now i e free) (
              inr (
                stored cache (stamped m now) now i (trans_clear (at cache i) now) valid
                  (clear-IsValid (at cache i) now) (inr (clear_stopped (at cache i) now)) small
                  (inl e)))
      ]
    ]

-- The message itself gets the time of its arrival in any case.
pub added_message :
    (cache : List Transaction) (m : DhcpMessage) (now : ℕ)
    → (trans_cache_add_message cache m now).2 ≡ stamped m now
added_message cache m now = elim (Option-cases (trans_cache_retrieve_transaction cache m.xid 0)) [
  | inr (i, e) ↦ rw (add_own cache m now i e) refl
  | inl e ↦ elim (Option-cases (cache_get_next_transaction cache 0)) [
    | inl full ↦ rw (add_full cache m now e full) refl
    | inr (i, free) ↦ rw (add_next cache m now i e free) refl
  ]
]

-- A valid cache that refuses a message stays as it is.
pub refused_same :
    (cache : List Transaction) (m : DhcpMessage) (now : ℕ)
    → AreValid cache
    → (trans_cache_add_message cache m now).0 ≡ false
    → (trans_cache_add_message cache m now).1 ≡ cache
refused_same cache m now valid refused = elim (add_message_lem cache m now valid) [
  | inl (f, same, rest, full) ↦ same
  | inr (stored, rest, found) ↦ absurd (ground arith)
]

-- ===== src/Transaction/Invariant.antt =====
-- The state of a transaction of server/src/transaction.c between two calls.
use dhcpv4_server_with_gui_c.Prelude.{
  ℕ, ◌+◌, ◌%◌, ◌≡◌, refl, ◌∙◌, ◌⊎◌, inl, inr, true, false, Option, some, List, [], ◌∷◌, ◌++◌, arith,
  ◌==◌, if◌then◌else◌, length, All, All-append, length-append, Bool-cases,
}
use dhcpv4_server_with_gui_c.Timer.{timer_start, timer_stop}
use dhcpv4_server_with_gui_c.Packet.{DhcpMessage}
use dhcpv4_server_with_gui_c.Transaction.{
  Transaction, allocated, trans_clear, trans_new, trans_add, search_for_last,
}

-- The messages have the transaction's xid, the counter counts them as far as eight bits can, and a
-- transaction whose timer is stopped holds none and has the xid 0.
pub record IsValid (t : Transaction) : Type 0 where
  pub owned : All (λ (m : DhcpMessage). m.xid ≡ t.xid) t.messages_ll
  pub counted : t.num_of_messages ≡ length t.messages_ll % 256
  pub idle : t.timer.is_running ≡ false → (t.messages_ll ≡ []) × (t.xid ≡ 0)

pub clear-IsValid : (t : Transaction) (now : ℕ) → IsValid (trans_clear t now)
unfolding trans_clear
clear-IsValid t now = record { owned = tt; counted = omega arith; idle = λ e. (refl, refl) }

-- After trans_clear a transaction is free, whatever it held.
pub clear_stopped : (t : Transaction) (now : ℕ) → (trans_clear t now).timer.is_running ≡ false
unfolding trans_clear timer_stop
clear_stopped t now = ground arith

pub new-IsValid : (time now : ℕ) → IsValid (trans_new time now)
unfolding trans_new
new-IsValid time now = clear-IsValid (allocated time now) now

-- What trans_add leaves of a transaction that it adds a message to.
add_state :
    (t : Transaction) (m : DhcpMessage) (now : ℕ)
    → (t.xid ≡ m.xid) ⊎ (t.xid ≡ 0)
    → let r = trans_add t m now in
      (r.0 ≡ true)
      × (r.1.messages_ll ≡ t.messages_ll ++ (m ∷ []))
      × (r.1.num_of_messages ≡ (t.num_of_messages + 1) % 256)
      × (t.num_of_messages ≡ 0 → r.1.xid ≡ m.xid)
      × (t.xid ≡ m.xid → r.1.xid ≡ m.xid)
      × (t.num_of_messages ≡ 0 → r.1.timer.is_running ≡ true)
      × (t.timer.is_running ≡ true → r.1.timer.is_running ≡ true)
unfolding trans_add timer_start
add_state t m now own = ground arith

added_owned :
    (t : Transaction) (m : DhcpMessage) (xid : ℕ)
    → All (λ (k : DhcpMessage). k.xid ≡ xid) t.messages_ll
    → m.xid ≡ xid
    → All (λ (k : DhcpMessage). k.xid ≡ xid) (t.messages_ll ++ (m ∷ []))
added_owned t m xid h e =
    All-append (λ (k : DhcpMessage). k.xid ≡ xid) t.messages_ll (m ∷ []) h (e, tt)

-- The invariant of the transaction `u` that holds one message more than `t`.
added :
    (t u : Transaction) (m : DhcpMessage)
    → t.num_of_messages ≡ length t.messages_ll % 256
    → u.messages_ll ≡ t.messages_ll ++ (m ∷ [])
    → u.num_of_messages ≡ (t.num_of_messages + 1) % 256
    → u.timer.is_running ≡ true
    → u.xid ≡ m.xid
    → All (λ (k : DhcpMessage). k.xid ≡ m.xid) t.messages_ll
    → IsValid u
added t u m c held num run x own =
    let size = length-append t.messages_ll (m ∷ []) in
    record {
      owned = rw (held, x) (added_owned t m m.xid own refl);
      counted = num ∙ rw held (omega arith);
      idle = λ off. ground arith;
    }

-- A message with the transaction's own xid, or the first message of a free transaction, is added;
-- the transaction then holds it as its last message, has its xid, and its timer runs.
pub add-IsValid :
    (t : Transaction) (m : DhcpMessage) (now : ℕ)
    → IsValid t
    → (t.xid ≡ m.xid) ⊎ (t.timer.is_running ≡ false)
    → ((trans_add t m now).0 ≡ true)
      × IsValid (trans_add t m now).1
      × ((trans_add t m now).1.timer.is_running ≡ true)
      × ((trans_add t m now).1.xid ≡ m.xid)
      × ((trans_add t m now).1.messages_ll ≡ t.messages_ll ++ (m ∷ []))
add-IsValid t m now v own = elim (Bool-cases t.timer.is_running) [
  | inl on ↦
      let same : t.xid ≡ m.xid = ground arith in
      let (done, held, num, x0, x, r0, r) = add_state t m now (inl same) in
      (
        done,
        added t (trans_add t m now).1 m v.counted held num (r on) (x same) (rw (← same) v.owned),
        r on,
        x same,
        held,
      )
  | inr off ↦
      let (no_messages, zero_xid) = v.idle off in
      let empty : t.num_of_messages ≡ 0 = v.counted ∙ rw no_messages (omega arith) in
      let (done, held, num, x0, x, r0, r) = add_state t m now (inr zero_xid) in
      (
        done,
        added t (trans_add t m now).1 m v.counted held num (r0 empty) (x0 empty)
            (rw no_messages tt),
        r0 empty,
        x0 empty,
        held,
      )
]

-- The last message of a type, when a message of that type is at the end.
pub search_for_last-append :
    (ms : List DhcpMessage) (m : DhcpMessage) (last : Option DhcpMessage)
    → search_for_last (ms ++ (m ∷ [])) m.type last ≡ some m
unfolding search_for_last
search_for_last-append [] m last = ground arith
search_for_last-append (k ∷ ms) m last =
    search_for_last-append ms m (if k.type == m.type then some k else last)

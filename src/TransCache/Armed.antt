-- ===== src/TransCache/Armed.antt =====
-- Every timer in the cache of server/src/transaction_cache.c calls trans_timer_cb_clear.
use dhcpv4_server_with_gui_c.Prelude.{
  ℕ, ◌≡◌, refl, inl, inr, some, List, arith, All, All-set, All-get_or, Option-cases,
}
use dhcpv4_server_with_gui_c.Timer.{
  trans_timer_cb_clear, timer_start, timer_stop, timer_reset, timer_new,
}
use dhcpv4_server_with_gui_c.Packet.{DhcpMessage}
use dhcpv4_server_with_gui_c.Transaction.{Transaction, trans_new, trans_clear, trans_add}
use dhcpv4_server_with_gui_c.TransCache.Invariant.{add_own, add_next, add_full, stamped}
use dhcpv4_server_with_gui_c.TransCache.{
  at, trans_cache_add_message, trans_cache_retrieve_transaction, cache_get_next_transaction,
}

abbrev pub IsArmed : Transaction → Type 0
IsArmed t = t.timer.cb ≡ some trans_timer_cb_clear

abbrev pub AreArmed : List Transaction → Type 0
AreArmed cache = All IsArmed cache

pub clear-IsArmed : (t : Transaction) (now : ℕ) → IsArmed t → IsArmed (trans_clear t now)
unfolding trans_clear timer_stop timer_reset
clear-IsArmed t now h = ground arith

pub new-IsArmed : (time now : ℕ) → IsArmed (trans_new time now)
unfolding trans_new trans_clear timer_new timer_stop timer_reset
new-IsArmed time now = refl

add-IsArmed :
    (t : Transaction) (m : DhcpMessage) (now : ℕ) → IsArmed t → IsArmed (trans_add t m now).1
unfolding trans_add timer_start
add-IsArmed t m now h = ground arith

pub at-IsArmed : (cache : List Transaction) (i : ℕ) → AreArmed cache → IsArmed (at cache i)
at-IsArmed cache i h = All-get_or IsArmed cache i (trans_new 0 0) h (new-IsArmed 0 0)

pub add_message-AreArmed :
    (cache : List Transaction) (m : DhcpMessage) (now : ℕ)
    → AreArmed cache
    → AreArmed (trans_cache_add_message cache m now).1
add_message-AreArmed cache m now h =
    elim (Option-cases (trans_cache_retrieve_transaction cache m.xid 0)) [
      | inr (i, e) ↦ rw (add_own cache m now i e) (
          All-set IsArmed cache i _ h
            (add-IsArmed (at cache i) (stamped m now) now (at-IsArmed cache i h)))
      | inl e ↦ elim (Option-cases (cache_get_next_transaction cache 0)) [
        | inl f ↦ rw (add_full cache m now e f) h
        | inr (i, f) ↦ rw (add_next cache m now i e f) (
            All-set IsArmed cache i _ h (
              add-IsArmed (trans_clear (at cache i) now) (stamped m now) now
                (clear-IsArmed (at cache i) now (at-IsArmed cache i h))))
      ]
    ]

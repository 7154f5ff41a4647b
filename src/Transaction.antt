-- ===== src/Transaction.antt =====
-- server/src/transaction.h and server/src/transaction.c. A transaction is kept by value. trans_add
-- copies a message but shares its list of options; of a stored message the program reads the
-- header alone, and so does this model. A null transaction is `none`.
pub mod Invariant
use dhcpv4_server_with_gui_c.Prelude.{
  ℕ, ◌+◌, ◌%◌, Bool, true, false, ◌&&◌, not, Option, none, some, List, [], ◌∷◌, ◌==◌, if◌then◌else◌,
}
use dhcpv4_server_with_gui_c.Llist.{Node, llist_append, llist_clear, llist_get_index}
use dhcpv4_server_with_gui_c.Timer.{
  Timer, once, trans_timer_cb_clear, timer_new, timer_start, timer_stop, timer_reset,
}
use dhcpv4_server_with_gui_c.Packet.{DhcpMessage}

-- `transaction_t`
pub record Transaction : Type 0 where
  pub transaction_begin : ℕ
  pub xid : ℕ
  pub num_of_messages : ℕ
  pub messages_ll : List DhcpMessage
  pub timer : Timer

unfoldable pub trans_clear : Transaction → ℕ → Transaction
unfolding timer_reset timer_stop
trans_clear t now = record t {
  num_of_messages = 0;
  transaction_begin = 0;
  xid = 0;
  messages_ll = llist_clear t.messages_ll;
  timer = if t.timer.is_running then timer_stop (timer_reset t.timer now) else t.timer;
}

-- A transaction as calloc, llist_new and timer_new give it
unfoldable pub allocated : ℕ → ℕ → Transaction
unfolding timer_new
allocated time now = record {
  transaction_begin = 0;
  xid = 0;
  num_of_messages = 0;
  messages_ll = [];
  timer = timer_new once time false (some trans_timer_cb_clear) now;
}

unfoldable pub trans_new : ℕ → ℕ → Transaction
unfolding trans_clear allocated
trans_new time now = trans_clear (allocated time now) now

-- The first part is whether the function returns 0. The counter is a uint8_t.
unfoldable pub trans_add : Transaction → DhcpMessage → ℕ → Bool × Transaction
unfolding timer_start
trans_add t message now =
    let first = t.num_of_messages == 0 in
    let count = (t.num_of_messages + 1) % 256 in
    if not (t.xid == 0) && not (t.xid == message.xid) then (false, t) else (
      true,
      record t {
        xid = if first then message.xid else t.xid;
        transaction_begin = if first then now else t.transaction_begin;
        messages_ll = llist_append t.messages_ll message;
        num_of_messages = count;
        timer = if count == 1 then timer_start t.timer now else t.timer;
      },
    )

unfoldable pub trans_get_index : Transaction → ℕ → Node DhcpMessage
unfolding llist_get_index
trans_get_index t index = llist_get_index t.messages_ll index

-- The loop of trans_search_for
unfoldable pub search_for : List DhcpMessage → ℕ → Option DhcpMessage
search_for [] type = none
search_for (message ∷ rest) type =
    if message.type == type then some message else search_for rest type

unfoldable pub trans_search_for : Transaction → ℕ → Option DhcpMessage
unfolding search_for
trans_search_for t type = search_for t.messages_ll type

-- The loop of trans_search_for_last, with the variable `last`
unfoldable pub search_for_last : List DhcpMessage → ℕ → Option DhcpMessage → Option DhcpMessage
search_for_last [] type last = last
search_for_last (message ∷ rest) type last =
    search_for_last rest type (if message.type == type then some message else last)

unfoldable pub trans_search_for_last : Transaction → ℕ → Option DhcpMessage
unfolding search_for_last
trans_search_for_last t type = search_for_last t.messages_ll type none

-- ===== src/Server/Invariant.antt =====
-- What the timers of server/src/dhcp_server.c keep.
use Prim.Native.String.{String}
use dhcpv4_server_with_gui_c.Prelude.{
  ℕ, zero, suc, ◌+◌, ◌-◌, ◌≡◌, ◌⊎◌, refl, sym, ap, ◌∙◌, inl, inr, some, List, [], ◌∷◌, arith, ltb,
  length, set, All-set, All-get_or, Bool-cases, Option-cases,
}
use dhcpv4_server_with_gui_c.Pool.{AddressPool}
use dhcpv4_server_with_gui_c.Allocator.{Allocator, allocator_is_address_available}
use dhcpv4_server_with_gui_c.Allocator.Apart.{IsSound, release-IsSound}
use dhcpv4_server_with_gui_c.Timer.{
  Timer, TimerResult, timer_nocb, timer_error, timer_stopped, calls, check_lease_expirations,
  trans_timer_cb_clear, timer_update,
}
use dhcpv4_server_with_gui_c.Transaction.{Transaction, trans_new, trans_clear, trans_search_for}
use dhcpv4_server_with_gui_c.Transaction.Invariant.{IsValid, new-IsValid, clear-IsValid}
use dhcpv4_server_with_gui_c.TransCache.{at}
use dhcpv4_server_with_gui_c.TransCache.Invariant.{AreValid}
use dhcpv4_server_with_gui_c.TransCache.Armed.{AreArmed, IsArmed, at-IsArmed, clear-IsArmed}
use dhcpv4_server_with_gui_c.Lease.{Lease, LeaseFiles, lease_retrieve, lease_remove}
use dhcpv4_server_with_gui_c.Server.{
  Server, is_removed, expire, check_address, check_loop, check_lease, check_pools,
  call_check_lease_expirations, call_trans_timer_cb_clear, trans_update_timer, update_transactions,
  update_timers,
}

-- The pools are valid and share no address; every transaction holds messages of its own xid only
-- and is empty when its timer is stopped; and every timer clears its transaction.
pub record IsServing (s : Server) : Type 0 where
  pub allocator : IsSound s.allocator
  pub cache : AreValid s.trans_cache
  pub armed : AreArmed s.trans_cache

pub with_allocator :
    (s : Server) (a : Allocator) → IsServing s → IsSound a → IsServing (record s { allocator = a })
with_allocator s a h v = record { allocator = v; cache = h.cache; armed = h.armed }

pub with_files :
    (s : Server) (files : LeaseFiles) → IsServing s → IsServing (record s { files = files })
with_files s files h = record { allocator = h.allocator; cache = h.cache; armed = h.armed }

pub with_cache :
    (s : Server) (cache : List Transaction)
    → IsServing s
    → AreValid cache
    → AreArmed cache
    → IsServing (record s { trans_cache = cache })
with_cache s cache h v a = record { allocator = h.allocator; cache = v; armed = a }

expire-IsServing :
    (s : Server) (lease : Lease) (a : ℕ) → IsServing s → IsServing (expire s lease a).1
unfolding expire
expire-IsServing s lease a h =
    let kept = with_files s (lease_remove s.files lease).1 h in
    elim (Bool-cases (is_removed (lease_remove s.files lease).0)) [
      | inl y ↦ rw y (with_allocator _ _ kept (release-IsSound s.allocator a h.allocator))
      | inr n ↦ rw n kept
    ]

address-IsServing :
    (now : ℕ) (name : String) (s : Server) (a : ℕ)
    → IsServing s
    → IsServing (check_address now name s a).1
unfolding check_address
address-IsServing now name s a h =
    elim (Bool-cases (allocator_is_address_available s.allocator a)) [
      | inl free ↦ rw free h
      | inr used ↦ elim (Option-cases (lease_retrieve s.files a (some name)).1) [
        | inl absent ↦ rw (used, absent) h
        | inr (lease, found) ↦ elim (Bool-cases (ltb now lease.lease_expire)) [
          | inl valid ↦ rw (used, found, valid) h
          | inr old ↦ rw (used, found, old) (expire-IsServing s lease a h)
        ]
      ]
    ]

loop-IsServing :
    (count a now : ℕ) (name : String) (s : Server)
    → IsServing s
    → IsServing (check_loop count a now name s).1
unfolding check_loop
loop-IsServing zero a now name s h = h
loop-IsServing (suc count) a now name s h =
    loop-IsServing count (a + 1) now name (check_address now name s a).1
      (address-IsServing now name s a h)

pools-IsServing :
    (now : ℕ) (pools : List AddressPool) (s : Server)
    → IsServing s
    → IsServing (check_pools now pools s).1
unfolding check_pools check_lease
pools-IsServing now [] s h = h
pools-IsServing now (pool ∷ pools) s h =
    pools-IsServing now pools (check_lease now pool s).1
      (loop-IsServing (pool.end_address - pool.start_address) pool.start_address now pool.name s h)

set-set : (ts : List Transaction) (i : ℕ) (t u : Transaction) → set (set ts i t) i u ≡ set ts i u
set-set [] i t u = refl
set-set (x ∷ ts) zero t u = refl
set-set (x ∷ ts) (suc i) t u = ap (◌∷◌ x) (set-set ts i t u)

-- The callback replaces the transaction at the index by an empty one, and releases an address at
-- most.
clear-IsServing :
    (s : Server) (i now : ℕ)
    → IsSound s.allocator
    → AreValid (set s.trans_cache i (trans_clear (at s.trans_cache i) now))
    → AreArmed (set s.trans_cache i (trans_clear (at s.trans_cache i) now))
    → IsServing (call_trans_timer_cb_clear s i now)
unfolding call_trans_timer_cb_clear
clear-IsServing s i now h v a = elim (Option-cases (trans_search_for (at s.trans_cache i) 2)) [
  | inl none_offered ↦
      rw (call_trans_timer_cb_clear, none_offered) record { allocator = h; cache = v; armed = a }
  | inr (offer, e) ↦ elim (Option-cases (trans_search_for (at s.trans_cache i) 5)) [
    | inl no_ack ↦
        rw (call_trans_timer_cb_clear, e, no_ack)
          record { allocator = release-IsSound s.allocator offer.yiaddr h; cache = v; armed = a }
    | inr (ack, acked) ↦
        rw (call_trans_timer_cb_clear, e, acked) record { allocator = h; cache = v; armed = a }
  ]
]

-- A timer that is updated and calls nothing runs as before.
timer_update-cases :
    (t : Timer) (now : ℕ)
    → t.cb ≡ some trans_timer_cb_clear
    → let (result, u) = timer_update t now in
      (u.cb ≡ t.cb)
      × ((result ≡ calls trans_timer_cb_clear now)
          ⊎ (((result ≡ timer_nocb) ⊎ (result ≡ timer_stopped)) × (u.is_running ≡ t.is_running)))
unfolding timer_update
timer_update-cases t now h = ground arith

-- The transaction at an index with its timer updated, and the server with it
abbrev updated : Server → ℕ → ℕ → Transaction
updated s i now = let t = at s.trans_cache i in record t { timer = (timer_update t.timer now).1 }

abbrev ticked : Server → ℕ → ℕ → Server
ticked s i now = record s { trans_cache = set s.trans_cache i (updated s i now) }

-- The two ways of trans_update_timer
update_calls :
    (s : Server) (i now : ℕ)
    → (timer_update (at s.trans_cache i).timer now).0 ≡ calls trans_timer_cb_clear now
    → trans_update_timer s i now ≡ call_trans_timer_cb_clear (ticked s i now) i now
unfolding trans_update_timer
update_calls s i now e = rw (trans_update_timer, e) refl

update_quiet :
    (s : Server) (i now : ℕ)
    → ((timer_update (at s.trans_cache i).timer now).0 ≡ timer_nocb)
      ⊎ ((timer_update (at s.trans_cache i).timer now).0 ≡ timer_stopped)
    → trans_update_timer s i now ≡ ticked s i now
unfolding trans_update_timer
update_quiet s i now (inl e) = rw (trans_update_timer, e) refl
update_quiet s i now (inr e) = rw (trans_update_timer, e) refl

-- A transaction keeps what its timer's flag tells of it.
retimed-IsValid :
    (t : Transaction) (timer : Timer)
    → IsValid t
    → timer.is_running ≡ t.timer.is_running
    → IsValid (record t { timer = timer })
retimed-IsValid t timer v e = record {
  owned = v.owned;
  counted = v.counted;
  idle = λ h. v.idle (sym e ∙ h);
}

update-IsServing : (s : Server) (i now : ℕ) → IsServing s → IsServing (trans_update_timer s i now)
update-IsServing s i now h =
    let t = at s.trans_cache i in
    let (same, ways) = timer_update-cases t.timer now (at-IsArmed s.trans_cache i h.armed) in
    let armed : AreArmed (ticked s i now).trans_cache =
      All-set IsArmed s.trans_cache i (updated s i now) h.armed
        (same ∙ at-IsArmed s.trans_cache i h.armed) in
    elim ways [
      | inl e ↦
          let cleared = trans_clear (at (ticked s i now).trans_cache i) now in
          rw (update_calls s i now e) (
            clear-IsServing (ticked s i now) i now h.allocator
              (rw (set-set s.trans_cache i (updated s i now) cleared)
                (All-set IsValid s.trans_cache i cleared h.cache (clear-IsValid _ now)))
              (All-set IsArmed (ticked s i now).trans_cache i cleared armed
                (clear-IsArmed _ now (at-IsArmed (ticked s i now).trans_cache i armed))))
      | inr (quiet, running) ↦
          let own = All-get_or IsValid s.trans_cache i (trans_new 0 0) h.cache (new-IsValid 0 0) in
          rw (update_quiet s i now quiet) (
            with_cache s (ticked s i now).trans_cache h
              (All-set IsValid s.trans_cache i (updated s i now) h.cache
                (retimed-IsValid t (timer_update t.timer now).1 own running))
              armed)
    ]

transactions-IsServing :
    (count i : ℕ) (s : Server) (now : ℕ)
    → IsServing s
    → IsServing (update_transactions count i s now)
unfolding update_transactions
transactions-IsServing zero i s now h = h
transactions-IsServing (suc count) i s now h =
    elim (Bool-cases (at s.trans_cache i).timer.is_running) [
      | inl on ↦ rw on (
          transactions-IsServing count (i + 1) (trans_update_timer s i now) now
            (update-IsServing s i now h))
      | inr off ↦ rw off (transactions-IsServing count (i + 1) s now h)
    ]

with_timer :
    (s : Server) (t : Timer) → IsServing s → IsServing (record s { lease_expiration_check = t })
with_timer s t h = record { allocator = h.allocator; cache = h.cache; armed = h.armed }

-- Whatever the timer that checks the leases calls, or does not call
ended-IsServing :
    (s : Server) (result : TimerResult)
    → IsServing s
    → IsServing (elim result [
      | calls check_lease_expirations time ↦ (call_check_lease_expirations time s).1
      | _ ↦ s
    ])
unfolding call_check_lease_expirations
ended-IsServing s timer_nocb h = h
ended-IsServing s timer_error h = h
ended-IsServing s timer_stopped h = h
ended-IsServing s (calls trans_timer_cb_clear time) h = h
ended-IsServing s (calls check_lease_expirations time) h =
    pools-IsServing time s.allocator.address_pools s h

pub timers-IsServing : (s : Server) (now : ℕ) → IsServing s → IsServing (update_timers s now)
unfolding update_timers
timers-IsServing s now h =
    let t = update_transactions (length s.trans_cache) 0 s now in
    let (result, timer) = timer_update t.lease_expiration_check now in
    ended-IsServing (record t { lease_expiration_check = timer }) result
      (with_timer t timer (transactions-IsServing (length s.trans_cache) 0 s now h))

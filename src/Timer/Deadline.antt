-- ===== src/Timer/Deadline.antt =====
-- When a timer of server/src/timer.c calls its callback.
use dhcpv4_server_with_gui_c.Prelude.{
  ℕ, ◌+◌, ◌^◌, ◌≤◌, ◌<◌, ◌≡◌, refl, sym, ap, ◌∙◌, true, List, [], ◌∷◌, some, arith, All,
}
use dhcpv4_server_with_gui_c.Timer.{
  Timer, TimerCb, TimerResult, timer_nocb, calls, timer_update, does_repeat,
}

-- The time at which a running timer is due.
abbrev pub deadline : Timer → ℕ
deadline t = t.ltime + t.rtime

-- An update before the deadline calls nothing, and leaves the timer running with that deadline.
update_early :
    (t : Timer) (now : ℕ)
    → t.is_running ≡ true
    → t.ltime ≤ now
    → now < deadline t
    → now < 2 ^ 32
    → ((timer_update t now).0 ≡ timer_nocb)
      × ((timer_update t now).1.is_running ≡ true)
      × ((timer_update t now).1.ltime ≡ now)
      × (deadline (timer_update t now).1 ≡ deadline t)
unfolding timer_update
update_early t now r a b w = ground arith

update_keeps :
    (t : Timer) (now : ℕ)
    → ((timer_update t now).1.type ≡ t.type)
      × ((timer_update t now).1.dtime ≡ t.dtime)
      × ((timer_update t now).1.cb ≡ t.cb)
unfolding timer_update
update_keeps t now = ground arith

-- An update at or after the deadline, in a later second than the last one, calls the callback.
update_due :
    (t : Timer) (now : ℕ) (f : TimerCb)
    → t.is_running ≡ true
    → t.cb ≡ some f
    → t.ltime < now
    → deadline t ≤ now
    → now < 2 ^ 32
    → ((timer_update t now).0 ≡ calls f now)
      × ((timer_update t now).1.is_running ≡ does_repeat t.type)
      × (deadline (timer_update t now).1 ≡ now + t.dtime)
unfolding timer_update
update_due t now f r c a b w = ground arith

-- A list of updates, one at each time.
unfoldable pub updates : Timer → List ℕ → List TimerResult × Timer
updates t [] = ([], t)
updates t (now ∷ later) =
    let (rest, last) = updates (timer_update t now).1 later in ((timer_update t now).0 ∷ rest, last)

-- The times do not decrease, from `now` on, and stay below a limit.
abbrev pub IsSchedule : ℕ → ℕ → List ℕ → Type 0
IsSchedule now limit [] = now < limit
IsSchedule now limit (next ∷ later) = (now ≤ next) × IsSchedule next limit later

schedule-lt : (now limit : ℕ) (times : List ℕ) → IsSchedule now limit times → now < limit
schedule-lt now limit [] h = h
schedule-lt now limit (next ∷ later) h = omega (arith, schedule-lt next limit later h.1)

updates_early :
    (t : Timer) (limit : ℕ) (times : List ℕ)
    → t.is_running ≡ true
    → limit ≡ deadline t
    → limit ≤ 2 ^ 32
    → IsSchedule t.ltime limit times
    → All (λ r. r ≡ timer_nocb) (updates t times).0
      × ((updates t times).1.is_running ≡ true)
      × (deadline (updates t times).1 ≡ limit)
      × ((updates t times).1.ltime < limit)
      × ((updates t times).1.type ≡ t.type)
      × ((updates t times).1.dtime ≡ t.dtime)
      × ((updates t times).1.cb ≡ t.cb)
unfolding updates
updates_early t limit [] r d w s = (tt, r, sym d, s, refl, refl, refl)
updates_early t limit (now ∷ later) r d w (le, s) =
    let lt = schedule-lt now limit later s in
    let (e, run, last, due) = update_early t now r le (omega arith) (omega arith) in
    let (k1, k2, k3) = update_keeps t now in
    let (all, r2, d2, l2, t2, dt2, c2) =
      updates_early (timer_update t now).1 limit later run (d ∙ sym due) w (rw last s) in
    ((e, all), r2, d2, l2, t2 ∙ k1, dt2 ∙ k2, c2 ∙ k3)

-- A running timer with a callback that is updated at times which do not decrease stays silent
-- while they are below its deadline, however often it is updated. The first update at or after
-- the deadline calls the callback, and the timer then runs on, for the whole default time,
-- exactly if it repeats. Times are below 2 ^ 32, and the deadline is at most that.
pub update-deadline :
    (t : Timer) (times : List ℕ) (now : ℕ) (f : TimerCb)
    → t.is_running ≡ true
    → t.cb ≡ some f
    → deadline t ≤ 2 ^ 32
    → IsSchedule t.ltime (deadline t) times
    → deadline t ≤ now
    → now < 2 ^ 32
    → All (λ r. r ≡ timer_nocb) (updates t times).0
      × ((timer_update (updates t times).1 now).0 ≡ calls f now)
      × ((timer_update (updates t times).1 now).1.is_running ≡ does_repeat t.type)
      × (deadline (timer_update (updates t times).1 now).1 ≡ now + t.dtime)
update-deadline t times now f r c w s due small =
    let (all, run, d, l, ty, dt, cb) = updates_early t (deadline t) times r refl w s in
    let (a, b, e) =
      update_due (updates t times).1 now f run (cb ∙ c) (omega arith) (omega arith) small in
    (all, a, b ∙ ap does_repeat ty, e ∙ ap (◌+◌ now) dt)

-- ===== src/Timer.antt =====
-- server/src/timer.h and server/src/timer.c. `now` is what time(NULL) returns, a uint32_t. A
-- timer is updated in two steps: what timer_update does up to its last statement, and the
-- callback that this statement calls, which the module of the callback models.
pub mod Deadline
use dhcpv4_server_with_gui_c.Prelude.{
  ℕ, ◌+◌, ◌-◌, ◌%◌, ◌^◌, Bool, true, false, Option, none, some, leb, ◌==◌, if◌then◌else◌,
}

pub data TimerType : Type 0 where
  once repeat : TimerType

-- The functions of the program that are used as a timer_cb_t.
pub data TimerCb : Type 0 where
  trans_timer_cb_clear check_lease_expirations : TimerCb

-- `struct timer`, with `_ltime` as `ltime`
pub record Timer : Type 0 where
  pub type : TimerType
  pub dtime : ℕ
  pub rtime : ℕ
  pub is_running : Bool
  pub ltime : ℕ
  pub cb : Option TimerCb

-- What timer_update returns: one of three codes, or what the callback returns that is called at a
-- time.
pub data TimerResult : Type 0 where
  timer_nocb timer_error timer_stopped : TimerResult
  calls : TimerCb → ℕ → TimerResult

unfoldable pub timer_new : TimerType → ℕ → Bool → Option TimerCb → ℕ → Timer
timer_new type dtime is_running cb now = record {
  type = type;
  dtime = dtime;
  rtime = dtime;
  is_running = is_running;
  ltime = now;
  cb = cb;
}

abbrev pub does_repeat : TimerType → Bool
does_repeat once = false
does_repeat repeat = true

-- The subtraction of two uint32_t
abbrev pub elapsed : ℕ → ℕ → ℕ
elapsed now ltime = (now + 2 ^ 32 - ltime) % 2 ^ 32

unfoldable pub timer_update : Timer → ℕ → TimerResult × Timer
timer_update t now =
    let time_difference = elapsed now t.ltime in
    if t.is_running
    then if time_difference == 0
      then (timer_nocb, t)
      else if leb t.rtime time_difference
      then (
        elim t.cb [ none ↦ timer_error | some f ↦ calls f now ],
        record t { ltime = now; rtime = t.dtime; is_running = does_repeat t.type },
      )
      else (timer_nocb, record t { ltime = now; rtime = t.rtime - time_difference })
    else (timer_stopped, t)

unfoldable pub timer_start : Timer → ℕ → Timer
timer_start t now = record t { is_running = true; ltime = now }

unfoldable pub timer_stop : Timer → Timer
timer_stop t = record t { is_running = false }

unfoldable pub timer_reset : Timer → ℕ → Timer
timer_reset t now = record t { is_running = true; ltime = now; rtime = t.dtime }

-- ===== src/Timer.antt =====
-- src/entity_timer_state.cpp with include/fsnet/entity_timer_state.hpp: the timers of an entity,
-- how one advances when it fires, and their wire form.
pub mod Encode
pub mod Decode
pub mod Advance
pub mod Fires
pub mod Decides
pub mod Refuses
pub mod Lifetime
pub mod WireSize
pub mod RoundTrip
pub mod Records
pub mod Next
mod Tests
use fsnet.Base.{
  ℕ, zero, suc, ◌+◌, ◌-◌, ◌*◌, ◌/◌, Bool, true, false, not, ◌&&◌, ◌||◌, [], ◌∷◌, ltb, ◌==◌,
  if◌then◌else◌, length, is_empty, Bytes,
}
use fsnet.Base.Int.{ℤ, pos, pos_part, is_negative, ltb_ℤ, int64_max}
use fsnet.Base.Maps.{Map}
use fsnet.Base.Errors.{invalid_argument, Outcome, ok, ◌>>◌, throw_if}
use fsnet.Message.{valid_entity_method}

-- `enum class TimerMissed : unsigned char`, by its values
abbrev pub coalesce : ℕ
coalesce = 0

abbrev pub catch_up : ℕ
catch_up = 1

pub record EntityTimer : Type 0 where
  pub key : Bytes
  pub method : Bytes
  pub payload : Bytes
  pub generation : Bytes
  pub due_ms : ℤ
  pub interval_ms : ℤ
  pub remaining : ℕ
  pub missed : ℕ
  pub fixed_delay : Bool

pub record EntityTimerState : Type 0 where
  pub sequence : ℕ
  pub token : Bytes
  pub entries : Map EntityTimer

pub record EntityTimerEvent : Type 0 where
  pub timer : EntityTimer
  pub fired_ms : ℤ

abbrev pub timer_payload_limit : ℕ
timer_payload_limit = 65536

abbrev pub state_budget : ℕ
state_budget = 2 * 1024 * 1024

abbrev pub is_zero : ℤ → Bool
is_zero t = pos_part t == 0 && not (is_negative t)

-- The condition under which `valid` throws.
unfoldable pub is_invalid : EntityTimer → Bool
is_invalid t =
    is_empty t.key
    || ltb 128 (length t.key)
    || is_empty t.generation
    || ltb 64 (length t.generation)
    || not (valid_entity_method t.method)
    || ltb timer_payload_limit (length t.payload)
    || is_negative t.due_ms
    || is_negative t.interval_ms
    || ltb int64_max t.remaining
    || (is_zero t.interval_ms && not (t.remaining == 1))
    || (not (t.missed == coalesce) && not (t.missed == catch_up))
    || (t.fixed_delay && t.missed == catch_up)

unfoldable pub valid : EntityTimer → Outcome (Unit {0})
valid t = throw_if (is_invalid t) invalid_argument

-- `timer.remaining && --timer.remaining == 0`: what is left, and whether it fell to zero
abbrev pub count_down : ℕ → ℕ × Bool
count_down zero = (0, false)
count_down (suc n) = (n, n == 0)

abbrev pub base : Bool → ℕ → ℕ → ℕ
base fixed_delay now due = if fixed_delay then now else due

abbrev pub steps : Bool → ℕ → ℕ → ℕ → ℕ → ℕ
steps fixed_delay missed now due interval =
    if fixed_delay || missed == catch_up then 1 else (now - due) / interval + 1

-- The part of `advance_entity_timer` after the checks, on the times that they showed to be
-- non-negative. It returns the result and the timer as it was left.
unfoldable pub reschedule : EntityTimer → ℕ → ℕ → ℕ → Bool × EntityTimer
reschedule t now due interval =
    let from = base t.fixed_delay now due in
    let count = steps t.fixed_delay t.missed now due interval in
    if ltb ((int64_max - from) / interval) count
    then (false, t)
    else (true, record t { due_ms = pos (from + count * interval) })

-- `if(!interval || (remaining && --remaining == 0)) return false;` and what follows it
unfoldable pub advance_expired : EntityTimer → ℕ → Bool × EntityTimer
advance_expired t now =
    let left = count_down t.remaining in
    if is_zero t.interval_ms
    then (false, t)
    else if left.1
    then (false, record t { remaining = left.0 })
    else reschedule (record t { remaining = left.0 }) now (pos_part t.due_ms)
        (pos_part t.interval_ms)

unfoldable pub advance_entity_timer : EntityTimer → ℤ → Outcome (Bool × EntityTimer)
unfolding valid
advance_entity_timer t now = do
  valid t
  throw_if (ltb_ℤ now t.due_ms) invalid_argument
  ok (advance_expired t (pos_part now))

-- The earliest due time, INT64_MAX where there is none.
unfoldable pub next_loop : Map EntityTimer → ℤ → ℤ
next_loop [] due = due
next_loop ((key, timer) ∷ entries) due =
    next_loop entries (if ltb_ℤ timer.due_ms due then timer.due_ms else due)

unfoldable pub next_entity_timer : EntityTimerState → ℤ
unfolding next_loop
next_entity_timer state = next_loop state.entries (pos int64_max)

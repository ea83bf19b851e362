-- ===== src/Timer/Fires.antt =====
-- The theorems about `advance_entity_timer`: its result on every branch, and how often it re-arms.

use fsnet.Base.{
  invalid_argument, throw_if-eq-ok, ok, Bool, ℕ, zero, suc, ◌-◌, ◌≤◌, ◌<◌, ◌≡◌, refl, ap, ◌≢◌, ◌↔◌,
  inl, inr, true, false, arith, Bool-cases,
}
use fsnet.Base.Int.{negsuc, ltb_ℤ, ℤ, pos, pos_part, int64_max}
use fsnet.Timer.{
  advance_entity_timer, advance_expired, EntityTimer, is_invalid, reschedule, count_down, is_zero,
}
use fsnet.Timer.Advance.{valid_times, Rescheduled, schedule, reschedule_inv}

rearmed-valid :
    (t : EntityTimer) (interval next left : ℕ)
    → is_invalid t ≡ false
    → t.interval_ms ≡ pos interval
    → 0 < interval
    → left ≤ t.remaining
    → is_invalid (record t { due_ms = pos next; remaining = left }) ≡ false
unfolding is_invalid
rearmed-valid t interval next left v e h le = ground arith

pub count_down_lem : (n : ℕ) → ((count_down n).0 ≡ n - 1) × (((count_down n).1 ≡ false) ↔ (n ≢ 1))
count_down_lem zero = (refl, (λ _ e. absurd (omega arith), λ _. refl))
count_down_lem (suc n) = (omega arith, ground arith)

expired_inv :
    (t u : EntityTimer) (now : ℕ)
    → advance_expired t now ≡ (true, u)
    → (is_zero t.interval_ms ≡ false)
      × (t.remaining ≢ 1)
      × (reschedule
            (record t { remaining = t.remaining - 1 })
            now
            (pos_part t.due_ms)
            (pos_part t.interval_ms)
          ≡ (true, u))
unfolding advance_expired
expired_inv t u now h = elim (Bool-cases (is_zero t.interval_ms)) [
  | inl e ↦ cc (rw (e, advance_expired) at h)
  | inr e ↦ elim (Bool-cases (count_down t.remaining).1) [
    | inl f ↦ cc (rw (e, f, advance_expired) at h)
    | inr f ↦ (
      e,
      (count_down_lem t.remaining).1.0 f,
      rw (← (count_down_lem t.remaining).0) (rw (e, f, advance_expired) at h),
    )
  ]
]

rearms :
    (t u : EntityTimer) (now due interval : ℕ)
    → t.due_ms ≡ pos due
    → t.interval_ms ≡ pos interval
    → due ≤ now
    → now ≤ int64_max
    → advance_expired t now ≡ (true, u)
    → (next : ℕ) × Rescheduled t.fixed_delay t.missed now due interval next
      × (u ≡ record t { due_ms = pos next; remaining = t.remaining - 1 })
      × (t.remaining ≢ 1)
      × (0 < interval)
rearms t u now due interval p q le word h =
    let (nonzero, more, e) = expired_inv t u now h in
    let positive : 0 < interval = ground arith in
    let (fits, same) =
      reschedule_inv (record t { remaining = t.remaining - 1 }) u now due interval
        (rw (← ap pos_part p, ← ap pos_part q) e) in
    (
      _,
      schedule t.fixed_delay t.missed now due interval positive le word fits,
      same,
      more,
      positive,
    )

pub advance_checked :
    (t : EntityTimer) (now : ℤ)
    → is_invalid t ≡ false
    → ltb_ℤ now t.due_ms ≡ false
    → advance_entity_timer t now ≡ ok (advance_expired t (pos_part now))
unfolding advance_entity_timer
advance_checked t now v e = rw (v, e)

ltb_ℤ-false : (a : ℤ) (n : ℕ) → ltb_ℤ (pos n) a ≡ false → pos_part a ≤ n
ltb_ℤ-false (pos m) n h = ground arith
ltb_ℤ-false (negsuc m) n h = omega arith

advance_guards :
    (t u : EntityTimer) (now : ℤ) (r : Bool)
    → advance_entity_timer t now ≡ ok (r, u)
    → (is_invalid t ≡ false)
      × (ltb_ℤ now t.due_ms ≡ false)
      × (advance_expired t (pos_part now) ≡ (r, u))
unfolding advance_entity_timer
advance_guards t u now r h =
    let (v, rest) = throw_if-eq-ok (is_invalid t) invalid_argument _ h in
    let (e, done) = throw_if-eq-ok (ltb_ℤ now t.due_ms) invalid_argument _ rest in (v, e, cc)

-- What is known of a timer `t` that was re-armed at `now` and is `u` after.
abbrev pub Rearmed : EntityTimer → EntityTimer → ℕ → Type 0
Rearmed t u now =
    (due interval next : ℕ) × (t.due_ms ≡ pos due)
    × (t.interval_ms ≡ pos interval)
    × Rescheduled t.fixed_delay t.missed now due interval next
    × (u ≡ record t { due_ms = pos next; remaining = t.remaining - 1 })
    × (0 < interval)
    × (t.remaining ≢ 1)
    × (is_invalid u ≡ false)

-- A timer that `advance_entity_timer` re-arms was valid and periodic and had more than one
-- callback left. It is due at a later time that a std::int64_t holds: one interval after `now` if
-- its delay is fixed, one interval after its old time if it catches up, and otherwise at its first
-- time after `now`. One callback is counted off (an unlimited count stays), nothing else changes,
-- and it is valid still. `now` is a non-negative std::int64_t.
pub advance_rearms :
    (t u : EntityTimer) (now : ℕ)
    → now ≤ int64_max
    → advance_entity_timer t (pos now) ≡ ok (true, u)
    → (is_invalid t ≡ false) × Rearmed t u now
advance_rearms t u now word h =
    let (v, e, expired) = advance_guards t u (pos now) true h in
    let (due, interval, times) = valid_times t v in
    let le : due ≤ now = omega (arith, ltb_ℤ-false t.due_ms now e, ap pos_part times.due_eq) in
    let (next, plan, same, more, positive) =
      rearms t u now due interval times.due_eq times.interval_eq le word expired in
    let still =
      rearmed-valid t interval next (t.remaining - 1) v times.interval_eq positive (omega arith) in
    (
      v,
      (
        due,
        interval,
        next,
        times.due_eq,
        times.interval_eq,
        plan,
        same,
        positive,
        more,
        rw same still,
      ),
    )

-- ===== src/Timer/Lifetime.antt =====
-- How often a timer can be re-armed.
use fsnet.Base.{ap, ◌+◌, ◌-◌, ok, ℕ, suc, ◌≤◌, ◌<◌, ◌≡◌, true, arith}
use fsnet.Base.Int.{pos, pos_part, int64_max}
use fsnet.Timer.{advance_entity_timer, EntityTimer}
use fsnet.Timer.Fires.{advance_rearms}

-- `Fires t k u`: `t` was re-armed `k` times, at times of the environment's choice, and is `u` now.
pub data Fires (t : EntityTimer) : ℕ → EntityTimer → Type 0 where
  start : Fires t 0 t
  again :
      {k : ℕ} {u v : EntityTimer}
      → (now : ℕ) → Fires t k u
      → now ≤ int64_max
      → advance_entity_timer u (pos now) ≡ ok (true, v)
      → Fires t (suc k) v

-- A timer with a callback count `n > 0` is re-armed fewer than `n` times, whatever the times at
-- which it is advanced: it calls back at most `n` times. Each re-arming moves it to a later time.
pub Fires-bounded :
    {t u : EntityTimer} {k : ℕ}
    → 0 < t.remaining
    → Fires t k u
    → (u.remaining + k ≡ t.remaining)
      × (0 < u.remaining)
      × (pos_part t.due_ms + k ≤ pos_part u.due_ms)
Fires-bounded h start = (omega arith, h, omega arith)
Fires-bounded h (again {u = u} {v = v} now before word e) =
    let (count, left, moved) = Fires-bounded h before in
    let (was_valid, (due, interval, next, p, q, plan, same, positive, more, still)) =
      advance_rearms u v now word e in
    let remains : v.remaining ≡ u.remaining - 1 = ap (λ (x : EntityTimer). x.remaining) same in
    let due_next : pos_part v.due_ms ≡ next = ap (λ (x : EntityTimer). pos_part x.due_ms) same in
    (omega arith, omega arith, omega (arith, ap pos_part p, plan.later))

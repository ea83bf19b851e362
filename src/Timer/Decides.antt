-- ===== src/Timer/Decides.antt =====
-- When `advance_entity_timer` of src/entity_timer_state.cpp re-arms a timer.
use fsnet.Base.{
  le→ltb_false, ltb_false→le, ◌*◌, ◌/◌, ltb, ok, Bool, ℕ, ◌-◌, ◌≤◌, ◌<◌, ◌≡◌, refl, ap, ◌≢◌, ◌↔◌,
  inl, inr, true, false, arith, Bool-cases,
}
use fsnet.Base.Int.{is_negative, pos, pos_part, int64_max}
use fsnet.Timer.{
  base, advance_expired, steps, advance_entity_timer, EntityTimer, is_invalid, reschedule,
  count_down, is_zero,
}
use fsnet.Timer.Advance.{valid_times}
use fsnet.Timer.Fires.{count_down_lem, advance_checked}
use native.Mathlib.Nat.{le-div_iff_mul-le}

-- Whether the re-arming time fits: what the division in the source decides.
fits_iff :
    (steps room interval : ℕ)
    → 0 < interval
    → (ltb (room / interval) steps ≡ false) ↔ (steps * interval ≤ room)
fits_iff steps room interval h = (
  λ e. (le-div_iff_mul-le h).0 (ltb_false→le _ _ e),
  λ (le : steps * interval ≤ room). le→ltb_false _ _ ((le-div_iff_mul-le h).1 le),
)

abbrev pub Continues : EntityTimer → ℕ → ℕ → ℕ → Type 0
Continues t now due interval =
    (0 < interval)
    × (t.remaining ≢ 1)
    × (steps t.fixed_delay t.missed now due interval * interval
        ≤ int64_max - base t.fixed_delay now due)

reschedule-true :
    (t : EntityTimer) (now due interval : ℕ)
    → 0 < interval
    → ((reschedule t now due interval).0 ≡ true) ↔ (
        steps t.fixed_delay t.missed now due interval * interval
        ≤ int64_max - base t.fixed_delay now due)
unfolding reschedule
reschedule-true t now due interval h = (to, from)
  where
    test : Bool
    test =
        ltb ((int64_max - base t.fixed_delay now due) / interval)
          (steps t.fixed_delay t.missed now due interval)

    split : ((reschedule t now due interval).0 ≡ true) ↔ (test ≡ false)
    split = elim (Bool-cases test) [
      | inl e ↦ rw (e, reschedule) (λ f. cc, λ f. cc)
      | inr e ↦ rw (e, reschedule) (λ _. refl, λ _. refl)
    ]

    to :
        (reschedule t now due interval).0 ≡ true
        → steps t.fixed_delay t.missed now due interval * interval
          ≤ int64_max - base t.fixed_delay now due
    to e = (fits_iff _ _ interval h).0 (split.0 e)

    from :
        steps t.fixed_delay t.missed now due interval * interval
          ≤ int64_max - base t.fixed_delay now due
        → (reschedule t now due interval).0 ≡ true
    from le = split.1 ((fits_iff _ _ interval h).1 le)

expired_true :
    (t : EntityTimer) (now : ℕ)
    → is_negative t.interval_ms ≡ false
    → ((advance_expired t now).0 ≡ true)
      ↔ Continues t now (pos_part t.due_ms) (pos_part t.interval_ms)
unfolding advance_expired
expired_true t now q = elim (Bool-cases (is_zero t.interval_ms)) [
  | inl e ↦
      rw (e, advance_expired)
        (
          λ f. cc,
          λ (c : Continues t now (pos_part t.due_ms) (pos_part t.interval_ms)).
              absurd (ground (arith, c.0)),
        )
  | inr e ↦ elim (Bool-cases (count_down t.remaining).1) [
    | inl f ↦
        rw (e, f, advance_expired)
          (
            λ g. cc,
            λ (c : Continues t now (pos_part t.due_ms) (pos_part t.interval_ms)).
                cc ((count_down_lem t.remaining).1.1 c.1),
          )
    | inr f ↦
        let positive : 0 < pos_part t.interval_ms = ground arith in
        let again =
          reschedule-true (record t { remaining = (count_down t.remaining).0 }) now
            (pos_part t.due_ms) (pos_part t.interval_ms) positive in
        rw (e, f, advance_expired)
          (
            λ g. (positive, (count_down_lem t.remaining).1.0 f, again.0 g),
            λ (c : Continues t now (pos_part t.due_ms) (pos_part t.interval_ms)). again.1 c.2,
          )
  ]
]

abbrev pub Decided : EntityTimer → ℕ → Type 0
Decided t now =
    (r : Bool) × (u : EntityTimer) × (advance_entity_timer t (pos now) ≡ ok (r, u))
    × ((r ≡ true) ↔ Continues t now (pos_part t.due_ms) (pos_part t.interval_ms))

-- A valid timer that has expired is advanced without an exception. It fires again exactly if it is
-- periodic, this was not its last callback, and the re-arming time fits a std::int64_t.
pub advance_decides :
    (t : EntityTimer) (now : ℕ) → is_invalid t ≡ false → pos_part t.due_ms ≤ now → Decided t now
advance_decides t now v le =
    let (due, interval, times) = valid_times t v in
    let due_pos : pos_part t.due_ms ≡ due = ap pos_part times.due_eq in
    let step = advance_expired t now in
    (
      step.0,
      step.1,
      advance_checked t (pos now) v (rw times.due_eq (le→ltb_false _ _ (omega arith))),
      expired_true t now (rw times.interval_eq refl),
    )

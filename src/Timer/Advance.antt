-- ===== src/Timer/Advance.antt =====
-- What `advance_entity_timer` does to a timer that has expired, and `next_entity_timer`.
use fsnet.Base.{
  ltb_false→le, ℕ, ◌+◌, ◌-◌, ◌*◌, ◌/◌, ◌≤◌, ◌<◌, ◌≡◌, refl, ◌≢◌, inl, inr, Bool, true, false, arith,
  ltb, ◌==◌, Bool-cases,
}
use fsnet.Base.Int.{ℤ, pos, negsuc, int64_max}
use fsnet.Timer.{base, steps, EntityTimer, catch_up, is_invalid, reschedule}
use native.Mathlib.Nat.{div-add-mod, mod-lt, le-div_iff_mul-le}

-- The facts of a valid timer that the arithmetic rests on, with its times as naturals.
pub record IsTimer (t : EntityTimer) (due interval : ℕ) : Type 0 where
  pub due_eq : t.due_ms ≡ pos due
  pub interval_eq : t.interval_ms ≡ pos interval
  pub valid_eq : is_invalid t ≡ false

pub valid_times :
    (t : EntityTimer) → is_invalid t ≡ false → (due : ℕ) × (interval : ℕ) × IsTimer t due interval
valid_times t h = go t.due_ms t.interval_ms refl refl
  where
    go :
        (d i : ℤ)
        → t.due_ms ≡ d
        → t.interval_ms ≡ i
        → (due : ℕ) × (interval : ℕ) × IsTimer t due interval
    go (pos due) (pos interval) p q =
        (due, interval, record { due_eq = p; interval_eq = q; valid_eq = h })
    go (negsuc n) i p q = absurd (unfold is_invalid in ground arith)
    go (pos due) (negsuc n) p q = absurd (unfold is_invalid in ground arith)

-- What the new due time of a timer is that was due at `due` and fires at `now`.
pub record Rescheduled (fixed_delay : Bool) (missed now due interval next : ℕ) : Type 0 where
  -- it is later than the old one, and fits a std::int64_t
  pub later : due < next
  pub in_range : next ≤ int64_max
  pub fixed : fixed_delay ≡ true → next ≡ now + interval
  pub caught_up : fixed_delay ≡ false → missed ≡ catch_up → next ≡ due + interval
  -- coalesced: the first of the times due + k * interval that lies after `now`
  pub coalesced :
      fixed_delay ≡ false
      → missed ≢ catch_up
      → (now < next) × (next ≤ now + interval) × ((k : ℕ) × (next ≡ due + k * interval))

next_multiple :
    (now due interval : ℕ)
    → 0 < interval
    → due ≤ now
    → (now < due + ((now - due) / interval + 1) * interval)
      × (due + ((now - due) / interval + 1) * interval ≤ now + interval)
next_multiple now due interval h le =
    omega (arith, div-add-mod (now - due) interval, mod-lt (now - due) h)

fits_division :
    (steps room interval : ℕ) → 0 < interval → steps ≤ room / interval → steps * interval ≤ room
fits_division steps room interval h le = (le-div_iff_mul-le h).0 le

pub schedule :
    (fixed_delay : Bool) (missed now due interval : ℕ)
    → 0 < interval
    → due ≤ now
    → now ≤ int64_max
    → steps fixed_delay missed now due interval ≤ (int64_max - base fixed_delay now due) / interval
    → Rescheduled fixed_delay missed now due interval
        (base fixed_delay now due + steps fixed_delay missed now due interval * interval)
schedule true missed now due interval h le word fits = record {
  later = omega arith;
  in_range = omega (arith, fits_division 1 (int64_max - now) interval h fits);
  fixed = λ _. omega arith;
  caught_up = λ e. cc;
  coalesced = λ e. cc;
}
schedule false missed now due interval h le word fits = elim (Bool-cases (missed == catch_up)) [
  | inl e ↦ record {
    later = rw e (omega arith);
    in_range = rw e (omega (arith, fits_division 1 (int64_max - due) interval h (rw e at fits)));
    fixed = λ f. cc;
    caught_up = λ _ _. rw e (omega arith);
    coalesced = λ _ n. absurd (n (ground arith));
  }
  | inr e ↦ record {
    later = rw e (omega (arith, next_multiple now due interval h le));
    in_range = rw e (
        omega (
          arith,
          fits_division ((now - due) / interval + 1) (int64_max - due) interval h (rw e at fits),
        ));
    fixed = λ f. cc;
    caught_up = λ _ m. absurd (ground arith);
    coalesced = λ _ _. rw e (
      (next_multiple now due interval h le).0,
      (next_multiple now due interval h le).1,
      ((now - due) / interval + 1, refl),
    );
  }
]

pub reschedule_inv :
    (t u : EntityTimer) (now due interval : ℕ)
    → reschedule t now due interval ≡ (true, u)
    → (steps t.fixed_delay t.missed now due interval
        ≤ (int64_max - base t.fixed_delay now due) / interval)
      × (u ≡ record t {
        due_ms =
            pos (
              base t.fixed_delay now due
              + steps t.fixed_delay t.missed now due interval * interval);
      })
unfolding reschedule
reschedule_inv t u now due interval e =
    elim (Bool-cases (
      ltb ((int64_max - base t.fixed_delay now due) / interval)
        (steps t.fixed_delay t.missed now due interval))) [
          | inl late ↦ cc (rw (late, reschedule) at e)
          | inr fits ↦ (ltb_false→le _ _ fits, cc (rw (fits, reschedule) at e))
        ]

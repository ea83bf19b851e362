-- ===== src/Timer/Refuses.antt =====
-- Which timers `advance_entity_timer` of src/entity_timer_state.cpp refuses.
use mathlib.Core.List.{[], ◌∷◌}
use fsnet.Base.{
  ◌∷◌, ◌^◌, ℕ, ◌≤◌, ◌<◌, ◌≡◌, refl, ap, sym, ◌∙◌, ◌⊎◌, inl, inr, Bool, true, false, arith, length,
  ok, err, Bool-cases,
}
use fsnet.Base.Errors.{invalid_argument}
use fsnet.Base.Int.{pos_part, ℤ, pos, negsuc, is_negative, ltb_ℤ}
use fsnet.Base.Tests.{ltb_false→le, ltb→lt}
use fsnet.Base.Texts.{is_empty, length-is_empty, Bytes}
use fsnet.Message.{valid_entity_method}
use fsnet.Timer.{is_zero, advance_expired, EntityTimer, is_invalid, advance_entity_timer}
use fsnet.Timer.Fires.{advance_checked}

-- What a timer has to be, in its fields: `missed` is 0 to coalesce and 1 to catch up.
pub record IsValid (t : EntityTimer) : Type 0 where
  pub key : 0 < length t.key
  pub key_max : length t.key ≤ 128
  pub generation : 0 < length t.generation
  pub generation_max : length t.generation ≤ 64
  pub method : valid_entity_method t.method ≡ true
  pub payload : length t.payload ≤ 65536
  pub due : (n : ℕ) × (t.due_ms ≡ pos n)
  pub interval : (n : ℕ) × (t.interval_ms ≡ pos n)
  pub remaining : t.remaining < 2 ^ 63
  pub once : t.interval_ms ≡ pos 0 → t.remaining ≡ 1
  pub missed : t.missed ≤ 1
  pub fixed : t.fixed_delay ≡ true → t.missed ≡ 0

not_negative : (i : ℤ) → is_negative i ≡ false → (n : ℕ) × (i ≡ pos n)
not_negative (pos n) h = (n, refl)
not_negative (negsuc n) h = cc

not_empty : (text : Bytes) → 0 < length text → is_empty text ≡ false
not_empty [] h = absurd (omega (arith, h))
not_empty (c ∷ text) h = refl

is_invalid-IsValid : (t : EntityTimer) → is_invalid t ≡ false → IsValid t
unfolding is_invalid
is_invalid-IsValid t h = record {
  key = length-is_empty t.key (ground (arith, h));
  key_max = ground (arith, h);
  generation = length-is_empty t.generation (ground (arith, h));
  generation_max = ground (arith, h);
  method = ground (arith, h);
  payload = ground (arith, h);
  due = not_negative t.due_ms (ground (arith, h));
  interval = not_negative t.interval_ms (ground (arith, h));
  remaining = ground (arith, h);
  once = λ e. (let zero : is_zero t.interval_ms ≡ true = ap is_zero e in ground (arith, h, zero));
  missed = ground (arith, h);
  fixed = λ e. ground (arith, h, e);
}

IsValid-is_invalid : (t : EntityTimer) → IsValid t → is_invalid t ≡ false
unfolding is_invalid
IsValid-is_invalid t v =
    let (due, due_eq) = v.due in
    let (n, eq) = v.interval in
    let key : is_empty t.key ≡ false = not_empty t.key v.key in
    let generation : is_empty t.generation ≡ false = not_empty t.generation v.generation in
    let after : is_negative t.due_ms ≡ false = ap is_negative due_eq in
    let forward : is_negative t.interval_ms ≡ false = ap is_negative eq in
    let once : pos_part t.interval_ms ≡ 0 → t.remaining ≡ 1 =
      λ z. v.once (eq ∙ ap pos (sym (ap pos_part eq) ∙ z)) in
    ground arith

not_expired :
    (due now : ℤ)
    → ltb_ℤ now due ≡ true
    → ¬ ((d : ℕ) × (n : ℕ) × (due ≡ pos d) × (now ≡ pos n) × (d ≤ n))
not_expired due now early (d, n, e, f, le) = omega (arith, ltb→lt _ _ (rw (e, f) at early))

expired :
    (due now : ℤ) (d : ℕ) → due ≡ pos d → ltb_ℤ now due ≡ false → (n : ℕ) × (now ≡ pos n) × (d ≤ n)
expired due (pos n) d e h = (n, refl, omega (arith, ltb_false→le _ _ (rw e at h)))
expired due (negsuc n) d e h = absurd (omega (arith, ltb_false→le _ _ (rw e at h)))

-- The timer has expired.
abbrev pub Expired : EntityTimer → ℤ → Type 0
Expired t now = (due : ℕ) × (n : ℕ) × (t.due_ms ≡ pos due) × (now ≡ pos n) × (due ≤ n)

-- `advance_entity_timer` returns for the timers that are valid and have expired, and throws
-- std::invalid_argument for all others.
pub advance_refuses :
    (t : EntityTimer) (now : ℤ)
    → (IsValid t
        × Expired t now
        × ((fires : Bool) × (u : EntityTimer) × (advance_entity_timer t now ≡ ok (fires, u))))
      ⊎ (¬ (IsValid t × Expired t now) × (advance_entity_timer t now ≡ err invalid_argument))
unfolding advance_entity_timer
advance_refuses t now = elim (Bool-cases (is_invalid t)) [
  | inl bad ↦ inr (λ ready. cc (sym bad ∙ IsValid-is_invalid t ready.0), rw bad refl)
  | inr good ↦
      let v = is_invalid-IsValid t good in
      elim (Bool-cases (ltb_ℤ now t.due_ms)) [
        | inl early ↦ inr (λ ready. not_expired t.due_ms now early ready.1, rw (good, early) refl)
        | inr late ↦
            let (d, e) = v.due in
            let (n, f, le) = expired t.due_ms now d e late in
            inl (
              v,
              (d, n, e, f, le),
              (
                (advance_expired t (pos_part now)).0,
                (advance_expired t (pos_part now)).1,
                advance_checked t now good late,
              ),
            )
      ]
]

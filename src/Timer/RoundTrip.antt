-- ===== src/Timer/RoundTrip.antt =====
-- The decoders of src/entity_timer_state.cpp read back what its encoders wrote.
use fsnet.Base.{
  ℕ, zero, suc, ◌^◌, ◌≤◌, ◌<◌, ◌≡◌, refl, Bool, true, false, not, ◌||◌, [], ◌∷◌, ◌++◌, arith, ltb,
  ◌==◌, length, Bytes, le→ltb_false, if◌then◌else◌, runtime_error, some,
}
use fsnet.Base.Int.{IsInt64, pos, to_u64, int64_max}
use fsnet.Base.Maps.{Map, IsSorted, emplace_last, emplace}
use fsnet.Timer.{EntityTimer, is_invalid, timer_payload_limit}
use fsnet.Timer.Decode.{get_entries, get_field, get_flags, get_timer}
use fsnet.Timer.Encode.{flags}
use fsnet.Timer.WireSize.{entries_bytes, AreTimers, field_bytes, timer_bytes, valid-Lengths}
use fsnet.Wire.{or_throw, put_integer, get_integer}
use fsnet.Wire.Reads.{
  Reads-text, Reads-or_throw, Reads, Reads-pure, Reads-guard, Reads-bind, Reads-integer,
}
use Prim.Native.Nat.{bit_or, bit_and}
use mathlib.Core.List.{append-nil, append_assoc}
use mathlib.Core.Path.{subst}

pub Reads-field :
    (maximum : ℕ) (text : Bytes)
    → length text ≤ maximum
    → maximum < 2 ^ 64
    → Reads (get_field maximum) (field_bytes text) text
unfolding get_field
Reads-field maximum text h w =
    Reads-bind get_integer _ (put_integer (length text)) text (length text) text
      (Reads-integer (length text) (omega arith))
      (Reads-guard (ltb maximum (length text)) runtime_error _ text text (le→ltb_false _ _ h)
        (Reads-text runtime_error text))

-- The flags of a valid timer fit two bits, which hold `missed` and `fixed_delay`.
pub record FlagBits (t : EntityTimer) : Type 0 where
  pub small : flags t ≤ 3
  pub missed : bit_and (flags t) 1 ≡ t.missed
  pub fixed_delay : not (bit_and (flags t) 2 == 0) ≡ t.fixed_delay

flag_bits :
    (missed : ℕ) (fixed : Bool)
    → missed ≤ 1
    → (bit_or missed (if fixed then 2 else 0) ≤ 3)
      × (bit_and (bit_or missed (if fixed then 2 else 0)) 1 ≡ missed)
      × (not (bit_and (bit_or missed (if fixed then 2 else 0)) 2 == 0) ≡ fixed)
flag_bits zero true h = (omega arith, refl, refl)
flag_bits zero false h = (omega arith, refl, refl)
flag_bits (suc zero) true h = (omega arith, refl, refl)
flag_bits (suc zero) false h = (omega arith, refl, refl)
flag_bits (suc (suc n)) f h = absurd (omega arith)

valid_missed : (t : EntityTimer) → is_invalid t ≡ false → t.missed ≤ 1
unfolding is_invalid
valid_missed t v = ground arith

valid_remaining : (t : EntityTimer) → is_invalid t ≡ false → t.remaining ≤ int64_max
unfolding is_invalid
valid_remaining t v = ground arith

valid_pos :
    (t : EntityTimer)
    → is_invalid t ≡ false
    → IsInt64 t.due_ms
    → IsInt64 t.interval_ms
    → (pos (to_u64 t.due_ms) ≡ t.due_ms)
      × (pos (to_u64 t.interval_ms) ≡ t.interval_ms)
      × (to_u64 t.due_ms ≤ int64_max)
      × (to_u64 t.interval_ms ≤ int64_max)
      × ((ltb int64_max (to_u64 t.due_ms) || ltb int64_max (to_u64 t.interval_ms)) ≡ false)
unfolding is_invalid
valid_pos t v d i = ground arith

Reads-flags : (b : ℕ) → b ≤ 3 → Reads get_flags (b ∷ []) b
unfolding get_flags
Reads-flags b h = record { at = λ rest. rw (le→ltb_false 3 b h) }

pub Reads-timer :
    (t : EntityTimer)
    → is_invalid t ≡ false
    → IsInt64 t.due_ms
    → IsInt64 t.interval_ms
    → Reads get_timer (timer_bytes t) t
unfolding get_timer
Reads-timer t v d i =
    let l = valid-Lengths t v in
    let (due, interval, due_fits, interval_fits, in_range) = valid_pos t v d i in
    let (small, missed, fixed) = flag_bits t.missed t.fixed_delay (valid_missed t v) in
    Reads-bind (get_field 128) _ _ _ t.key t (Reads-field 128 t.key l.key (omega arith)) (
      Reads-bind (get_field 127) _ _ _ t.method t (Reads-field 127 t.method l.method (omega arith))
        (Reads-bind (get_field timer_payload_limit) _ _ _ t.payload t
          (Reads-field timer_payload_limit t.payload l.payload (omega arith))
          (Reads-bind (get_field 64) _ _ _ t.generation t
            (Reads-field 64 t.generation l.generation (omega arith))
            (Reads-bind get_integer _ _ _ (to_u64 t.due_ms) t (Reads-integer _ (omega arith)) (
              Reads-bind get_integer _ _ _ (to_u64 t.interval_ms) t (Reads-integer _ (omega arith))
                (Reads-guard _ runtime_error _ _ t in_range (
                  Reads-bind get_integer _ _ _ t.remaining t
                    (Reads-integer _ (omega (arith, valid_remaining t v)))
                    (Reads-bind get_flags _ (flags t ∷ []) [] (flags t) t (Reads-flags _ small) (
                      rw (due, interval, missed, fixed)
                        (Reads-guard (is_invalid t) _ _ [] t v (Reads-pure t)))))))))))

abbrev pub AreInt64 : Map EntityTimer → Type 0
AreInt64 [] = Unit
AreInt64 ((key, t) ∷ entries) = IsInt64 t.due_ms × IsInt64 t.interval_ms × AreInt64 entries

-- Entries that come in key order are all accepted, and end up in that order.
pub Reads-entries :
    (entries before : Map EntityTimer)
    → AreTimers entries
    → AreInt64 entries
    → IsSorted (before ++ entries)
    → Reads (get_entries (length entries) before) (entries_bytes entries) (before ++ entries)
unfolding get_entries
Reads-entries [] before all ints sorted = rw (append-nil before) (Reads-pure before)
Reads-entries ((key, t) ∷ entries) before (k, v, all) (d, i, ints) sorted =
    Reads-bind get_timer _ _ _ t _ (Reads-timer t v d i) (
      Reads-bind (or_throw (emplace t.key t before) runtime_error) _ [] _ _ _
        (Reads-or_throw _ _ _ (emplaced key k (emplace_last key t before entries sorted)))
        (rw (append_assoc before ((key, t) ∷ []) entries) at (
          Reads-entries entries (before ++ ((key, t) ∷ [])) all ints
            (rw (append_assoc before ((key, t) ∷ []) entries) sorted))))
  where
    emplaced :
        (key : Bytes)
        → key ≡ t.key
        → emplace key t before ≡ some (before ++ ((key, t) ∷ []))
        → emplace t.key t before ≡ some (before ++ ((key, t) ∷ []))
    emplaced key k e = subst (λ j. emplace j t before ≡ some (before ++ ((key, t) ∷ []))) k e

-- ===== src/Timer/Records.antt =====
-- The whole records: `decode_entity_timers` after `encode_entity_timers`, and the event's.
use fsnet.Base.{
  length-append, ◌+◌, ◌≤◌, ℕ, ◌^◌, ◌<◌, ◌≡◌, refl, ap, ◌∙◌, false, not, ◌||◌, [], ◌∷◌, ◌++◌, arith,
  ltb, ◌==◌, length, ok, throw_if-eq-ok, >>=-eq-ok, Bytes, codes, is_empty, starts_with-append,
  le→ltb_false, runtime_error, invalid_argument, inl, inr, Outcome-cases, drop,
}
use fsnet.Base.Int.{negsuc, pos_part, int64_max, pos, ℤ, to_u64, ltb_ℤ, IsInt64}
use fsnet.Base.Maps.{Map, IsSorted}
use fsnet.Timer.{
  timer_payload_limit, valid, EntityTimer, EntityTimerState, EntityTimerEvent, is_invalid,
  state_budget,
}
use fsnet.Timer.Decode.{
  get_timer, decode_timer_event, get_event, get_field, get_entries, get_state, decode_entity_timers,
}
use fsnet.Timer.Encode.{
  bad_header, put_timer, entity_timers_wire_size, encode_entity_timers, encode_timer_event,
}
use fsnet.Timer.RoundTrip.{Reads-timer, AreInt64, Reads-field, Reads-entries}
use fsnet.Timer.WireSize.{
  timer_bytes, entries_bytes, state_bytes, IsState, valid-Lengths, length-timer_bytes,
  wire_size-IsState, encode-IsState, put_timer-timer_bytes,
}
use fsnet.Wire.{put_integer, get_integer}
use fsnet.Wire.Reads.{Reads-integer, ReadsAll, ReadsAll-bind, ReadsAll-guard, ReadsAll-last}
use fsnet.Wire.RoundTrip.{length-put_uint}

encode_inv :
    (state : EntityTimerState) (out : Bytes)
    → encode_entity_timers state ≡ ok out
    → IsState state × (out ≡ state_bytes state)
encode_inv state out h = elim (Outcome-cases (entity_timers_wire_size state)) [
  | inl (n, e) ↦
      let (s, total) = wire_size-IsState state n e in
      (s, cc (h, encode-IsState state (e ∙ ap ok total) s))
  | inr (x, e) ↦ unfold encode_entity_timers in cc (rw e at h)
]

is_empty-size : (entries : Map EntityTimer) → is_empty entries ≡ (length entries == 0)
is_empty-size [] = refl
is_empty-size (e ∷ entries) = ground arith

state_header :
    (state : EntityTimerState)
    → IsState state
    → (ltb 1024 (length state.entries)
        || bad_header state.sequence state.token (not (length state.entries == 0)))
      ≡ false
state_header state s =
    rw (le→ltb_false 1024 (length state.entries) s.count, ← is_empty-size state.entries) s.header

ReadsAll-state :
    (state : EntityTimerState)
    → IsState state
    → state.sequence < 2 ^ 64
    → IsSorted state.entries
    → AreInt64 state.entries
    → ReadsAll get_state (drop 4 (state_bytes state)) state
unfolding get_state
ReadsAll-state state s word sorted ints =
    ReadsAll-bind get_integer _ _ _ state.sequence state (Reads-integer state.sequence word) (
      ReadsAll-bind (get_field 64) _ _ _ state.token state
        (Reads-field 64 state.token s.token (omega arith))
        (ReadsAll-bind get_integer _ _ _ (length state.entries) state
          (Reads-integer (length state.entries) (omega (arith, s.count)))
          (ReadsAll-guard _ runtime_error _ _ state (state_header state s) (
            ReadsAll-last (get_entries (length state.entries) []) _ (entries_bytes state.entries)
              state.entries state (Reads-entries state.entries [] s.timers ints sorted) refl))))

-- A state that was encoded is decoded to itself: the sequence and the times are those of 64-bit
-- words, and the entries are in the key order of a std::map.
pub decode-encode :
    (state : EntityTimerState) (out : Bytes)
    → state.sequence < 2 ^ 64
    → IsSorted state.entries
    → AreInt64 state.entries
    → encode_entity_timers state ≡ ok out
    → decode_entity_timers out ≡ ok state
unfolding decode_entity_timers
decode-encode state out word sorted ints h =
    let (s, e) = encode_inv state out h in
    rw (
      e,
      starts_with-append (codes "FST1") (drop 4 (state_bytes state)),
      le→ltb_false state_budget (length (state_bytes state)) s.budget,
      (ReadsAll-state state s word sorted ints).at,
    )

event_inv :
    (event : EntityTimerEvent) (out : Bytes)
    → encode_timer_event event ≡ ok out
    → (is_invalid event.timer ≡ false)
      × (ltb_ℤ event.fired_ms event.timer.due_ms ≡ false)
      × (out ≡ codes "FTE1" ++ (timer_bytes event.timer ++ put_integer (to_u64 event.fired_ms)))
unfolding encode_timer_event put_timer valid
event_inv event out h =
    let (e, rest) = throw_if-eq-ok (ltb_ℤ event.fired_ms event.timer.due_ms) invalid_argument _ h in
    let (timer, written, done) = >>=-eq-ok (put_timer event.timer) _ rest in
    let (v, _) = throw_if-eq-ok (is_invalid event.timer) invalid_argument _ written in
    (v, e, cc (written, done, put_timer-timer_bytes event.timer v))

fired_time :
    (t : EntityTimer) (fired : ℤ)
    → is_invalid t ≡ false
    → ltb_ℤ fired t.due_ms ≡ false
    → IsInt64 fired
    → (pos (to_u64 fired) ≡ fired)
      × (to_u64 fired ≤ int64_max)
      × ((ltb int64_max (to_u64 fired) || ltb (to_u64 fired) (pos_part t.due_ms)) ≡ false)
unfolding is_invalid
fired_time t (pos n) v e i = ground arith
fired_time t (negsuc n) v e i = ground arith

ReadsAll-event :
    (event : EntityTimerEvent)
    → is_invalid event.timer ≡ false
    → ltb_ℤ event.fired_ms event.timer.due_ms ≡ false
    → IsInt64 event.timer.due_ms
    → IsInt64 event.timer.interval_ms
    → IsInt64 event.fired_ms
    → ReadsAll get_event (timer_bytes event.timer ++ put_integer (to_u64 event.fired_ms)) event
unfolding get_event
ReadsAll-event event v e d i f =
    let (time, fits, in_range) = fired_time event.timer event.fired_ms v e f in
    ReadsAll-bind get_timer _ _ _ event.timer event (Reads-timer event.timer v d i) (
      ReadsAll-last get_integer _ _ (to_u64 event.fired_ms) event (Reads-integer _ (omega arith))
        (rw (in_range, time)))

event_fits :
    (t : EntityTimer) (fired : ℕ)
    → is_invalid t ≡ false
    → length (codes "FTE1" ++ (timer_bytes t ++ put_integer fired)) ≤ timer_payload_limit + 1024
event_fits t fired v =
    let l = valid-Lengths t v in
    simp (length-append (timer_bytes t), length-put_uint)
      (omega (arith, length-timer_bytes t, l.key, l.method, l.payload, l.generation))

-- An event that was encoded is decoded to itself, whatever its size: the decoder's limit on the
-- input leaves room for the longest event. The times are those of 64-bit words.
pub decode-encode_event :
    (event : EntityTimerEvent) (out : Bytes)
    → IsInt64 event.timer.due_ms
    → IsInt64 event.timer.interval_ms
    → IsInt64 event.fired_ms
    → encode_timer_event event ≡ ok out
    → decode_timer_event out ≡ ok event
unfolding decode_timer_event
decode-encode_event event out d i f h =
    let (v, e, same) = event_inv event out h in
    rw (
      same,
      le→ltb_false _ _ (event_fits event.timer (to_u64 event.fired_ms) v),
      starts_with-append (codes "FTE1")
          (timer_bytes event.timer ++ put_integer (to_u64 event.fired_ms)),
      (ReadsAll-event event v e d i f).at,
    )

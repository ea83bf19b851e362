-- ===== src/Timer/Encode.antt =====
-- The writers of src/entity_timer_state.cpp: `put`, `encode_entity_timers` with the size that
-- `entity_timers_wire_size` computes beforehand, and `encode_timer_event`.
use fsnet.Base.{
  ℕ, ◌+◌, Bool, not, ◌&&◌, ◌||◌, [], ◌∷◌, ◌++◌, ltb, ◌==◌, if◌then◌else◌, length, is_empty, Bytes,
  codes, text_eq,
}
use fsnet.Base.Int.{ltb_ℤ, to_u64}
use fsnet.Base.Maps.{Map}
use fsnet.Base.Errors.{invalid_argument, length_error, Outcome, ok, ◌>>=◌, ◌>>◌, throw_if}
use fsnet.Wire.{put_integer}
use fsnet.Timer.{
  EntityTimer, EntityTimerState, EntityTimerEvent, valid, timer_payload_limit, state_budget,
}
use Prim.Native.Nat.{bit_or}

-- `blob(out, value)`
unfoldable pub put_field : Bytes → Outcome Bytes
put_field text = do
  throw_if (ltb timer_payload_limit (length text)) invalid_argument
  ok (put_integer (length text) ++ text)

abbrev pub flags : EntityTimer → ℕ
flags t = bit_or t.missed (if t.fixed_delay then 2 else 0)

-- `put`
unfoldable pub put_timer : EntityTimer → Outcome Bytes
put_timer t = do
  valid t
  key ← put_field t.key
  method ← put_field t.method
  payload ← put_field t.payload
  generation ← put_field t.generation
  ok (
      key
      ++ (method
          ++ (payload
              ++ (generation
                  ++ (put_integer (to_u64 t.due_ms)
                      ++ (put_integer (to_u64 t.interval_ms)
                          ++ (put_integer t.remaining ++ (flags t ∷ []))))))))

-- The header checks that the size and the decoder share: the token is there exactly when the
-- sequence is not zero, and entries need a sequence.
abbrev pub bad_header : ℕ → Bytes → Bool → Bool
bad_header sequence token has_entries =
    (sequence == 0 && not (is_empty token))
    || (not (sequence == 0) && is_empty token)
    || (has_entries && sequence == 0)

unfoldable pub entries_size : Map EntityTimer → ℕ → Outcome ℕ
entries_size [] size = ok size
entries_size ((key, t) ∷ entries) size = do
  throw_if (not (text_eq key t.key)) invalid_argument
  valid t
  entries_size entries
      (size + (57 + length t.key + length t.method + length t.payload + length t.generation))

unfoldable pub entity_timers_wire_size : EntityTimerState → Outcome ℕ
unfolding entries_size
entity_timers_wire_size state = do
  throw_if
      (ltb 1024 (length state.entries)
        || ltb 64 (length state.token)
        || bad_header state.sequence state.token (not (is_empty state.entries)))
      invalid_argument
  size ← entries_size state.entries (28 + length state.token)
  throw_if (ltb state_budget size) length_error
  ok size

unfoldable pub put_entries : Map EntityTimer → Outcome Bytes
unfolding put_timer
put_entries [] = ok []
put_entries ((key, t) ∷ entries) = do
  throw_if (not (text_eq key t.key)) invalid_argument
  timer ← put_timer t
  rest ← put_entries entries
  ok (timer ++ rest)

unfoldable pub encode_entity_timers : EntityTimerState → Outcome Bytes
unfolding entity_timers_wire_size put_entries
encode_entity_timers state = do
  size ← entity_timers_wire_size state
  token ← put_field state.token
  body ← put_entries state.entries
  let out =
      codes "FST1"
      ++ (put_integer state.sequence ++ (token ++ (put_integer (length state.entries) ++ body)))
  throw_if (ltb state_budget (length out)) length_error
  ok out

unfoldable pub encode_timer_event : EntityTimerEvent → Outcome Bytes
encode_timer_event event = do
  throw_if (ltb_ℤ event.fired_ms event.timer.due_ms) invalid_argument
  timer ← put_timer event.timer
  ok (codes "FTE1" ++ (timer ++ put_integer (to_u64 event.fired_ms)))

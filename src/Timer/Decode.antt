-- ===== src/Timer/Decode.antt =====
-- The readers of src/entity_timer_state.cpp: `get`, `decode_entity_timers` and
-- `decode_timer_event`.
use fsnet.Base.{
  if◌then◌else◌, ℕ, zero, suc, ◌+◌, not, ◌||◌, [], ◌∷◌, ltb, ◌==◌, length, Bytes, codes,
  starts_with, drop,
}
use fsnet.Base.Errors.{invalid_argument, runtime_error, Outcome, ok, err}
use fsnet.Base.Int.{pos, pos_part, int64_max}
use fsnet.Base.Maps.{Map, emplace}
use fsnet.Timer.{
  EntityTimer, EntityTimerState, EntityTimerEvent, is_invalid, timer_payload_limit, state_budget,
}
use fsnet.Timer.Encode.{bad_header}
use fsnet.Wire.{
  value_of, or_throw, Reader, ◌>>=◌, ◌>>◌, pure, throw_if, throw_unless_empty, get_integer,
  take_text,
}
use Prim.Native.Nat.{bit_and}

-- `blob(input, maximum)`
unfoldable pub get_field : ℕ → Reader Bytes
get_field maximum = do
  n ← get_integer
  throw_if (ltb maximum n) runtime_error
  take_text runtime_error n

-- `input.front()` with `input.remove_prefix(1)`, and the check of the flags' range
unfoldable pub get_flags : Reader ℕ
get_flags [] = err runtime_error
get_flags (b ∷ input) = if ltb 3 b then err runtime_error else ok (b, input)

-- `get`
unfoldable pub get_timer : Reader EntityTimer
get_timer = do
  key ← get_field 128
  method ← get_field 127
  payload ← get_field timer_payload_limit
  generation ← get_field 64
  due ← get_integer
  interval ← get_integer
  throw_if (ltb int64_max due || ltb int64_max interval) runtime_error
  remaining ← get_integer
  flags ← get_flags
  let timer : EntityTimer = record {
    key = key;
    method = method;
    payload = payload;
    generation = generation;
    due_ms = pos due;
    interval_ms = pos interval;
    remaining = remaining;
    missed = bit_and flags 1;
    fixed_delay = not (bit_and flags 2 == 0);
  }
  throw_if (is_invalid timer) invalid_argument
  pure timer

-- `while(count--)`: each timer goes into the map under its own key.
unfoldable pub get_entries : ℕ → Map EntityTimer → Reader (Map EntityTimer)
get_entries zero entries = pure entries
get_entries (suc count) entries = do
  timer ← get_timer
  more ← or_throw (emplace timer.key timer entries) runtime_error
  get_entries count more

unfoldable pub get_state : Reader EntityTimerState
get_state = do
  sequence ← get_integer
  token ← get_field 64
  count ← get_integer
  throw_if (ltb 1024 count || bad_header sequence token (not (count == 0))) runtime_error
  entries ← get_entries count []
  throw_unless_empty runtime_error
  pure (record { sequence = sequence; token = token; entries = entries })

unfoldable pub decode_entity_timers : Bytes → Outcome EntityTimerState
decode_entity_timers input =
    if not (starts_with input (codes "FST1")) || ltb state_budget (length input)
    then err runtime_error
    else value_of (get_state (drop 4 input))

unfoldable pub get_event : Reader EntityTimerEvent
get_event = do
  timer ← get_timer
  time ← get_integer
  throw_unless_empty runtime_error
  throw_if (ltb int64_max time || ltb time (pos_part timer.due_ms)) runtime_error
  pure (record { timer = timer; fired_ms = pos time })

unfoldable pub decode_timer_event : Bytes → Outcome EntityTimerEvent
decode_timer_event input =
    if ltb (timer_payload_limit + 1024) (length input) || not (starts_with input (codes "FTE1"))
    then err runtime_error
    else value_of (get_event (drop 4 input))

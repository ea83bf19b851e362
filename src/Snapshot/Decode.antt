-- ===== src/Snapshot/Decode.antt =====
-- The readers of include/fsnet/entity_snapshot.hpp.
use fsnet.Base.{
  ok, ℕ, zero, suc, Bool, true, false, not, ◌&&◌, [], ◌∷◌, List, ltb, Bytes, codes, Outcome, err,
  runtime_error, if◌then◌else◌, starts_with, drop,
}
use fsnet.Delivery.{EntityDeliveryState}
use fsnet.Delivery.Decode.{decode_delivery_state}
use fsnet.Snapshot.{EntityReceipt, EntitySnapshot, no_delivery, no_timers}
use fsnet.Timer.{EntityTimerState}
use fsnet.Timer.Decode.{decode_entity_timers}
use fsnet.Wire.{
  Reader, ◌>>=◌, ◌>>◌, throw_if, pure, call, get_blob, get_number, get_flag, throw_unless_empty,
  value_of,
}

unfoldable pub get_receipts : ℕ → Reader (List EntityReceipt)
get_receipts zero = pure []
get_receipts (suc count) = do
  id ← get_blob
  route ← get_blob
  request ← get_blob
  response ← get_blob
  rest ← get_receipts count
  pure (record { id = id; route = route; request = request; response = response } ∷ rest)

-- The flag byte of FSP3; the other versions have it in their name.
abbrev pub get_presence : Bool → Bool → Reader Bool
get_presence true delivery = get_flag runtime_error
get_presence false delivery = pure delivery

abbrev pub get_delivery : Bool → Reader EntityDeliveryState
get_delivery true = get_blob >>= λ text. call (decode_delivery_state text)
get_delivery false = pure no_delivery

abbrev pub get_timers : Bool → Reader EntityTimerState
get_timers true = get_blob >>= λ text. call (decode_entity_timers text)
get_timers false = pure no_timers

unfoldable pub get_snapshot : Bool → Bool → Reader EntitySnapshot
unfolding get_receipts
get_snapshot timed named = do
  state ← get_blob
  count ← get_number
  throw_if (ltb 1024 count) runtime_error
  receipts ← get_receipts count
  delivered ← get_presence timed named
  delivery ← get_delivery delivered
  timers ← get_timers timed
  throw_unless_empty runtime_error
  pure (record { state = state; receipts = receipts; delivery = delivery; timers = timers })

-- `!timers && !delivery && !input.starts_with("FSP1")`
abbrev pub unknown_version : Bytes → Bool
unknown_version input =
    not (starts_with input (codes "FSP3"))
    && not (starts_with input (codes "FSP2"))
    && not (starts_with input (codes "FSP1"))

unfoldable pub decode_snapshot : Bytes → Outcome EntitySnapshot
unfolding get_snapshot
decode_snapshot input =
    if unknown_version input
    then err runtime_error
    else value_of (
        get_snapshot (starts_with input (codes "FSP3")) (starts_with input (codes "FSP2"))
          (drop 4 input))

-- A field that is skipped.
abbrev pub skip_blob : Bool → Reader (Unit {0})
skip_blob true = get_blob >>= λ text. pure tt
skip_blob false = pure tt

-- `for(…count…) for(unsigned field=0;field<4;++field) blob_view(input);`
unfoldable pub skip_receipts : ℕ → Reader (Unit {0})
skip_receipts zero = pure tt
skip_receipts (suc count) = do
  id ← get_blob
  route ← get_blob
  request ← get_blob
  response ← get_blob
  skip_receipts count

unfoldable pub get_framing : Bool → Bool → Reader (Unit {0})
unfolding skip_receipts
get_framing timed named = do
  state ← get_blob
  count ← get_number
  throw_if (ltb 1024 count) runtime_error
  skip_receipts count
  delivered ← get_presence timed named
  skip_blob delivered
  skip_blob timed
  throw_unless_empty runtime_error
  pure tt

unfoldable pub validate_snapshot_framing : Bytes → Outcome (Unit {0})
unfolding get_framing
validate_snapshot_framing input =
    if unknown_version input
    then err runtime_error
    else value_of (
        get_framing (starts_with input (codes "FSP3")) (starts_with input (codes "FSP2"))
          (drop 4 input))

unfoldable pub get_snapshot_timers : Reader EntityTimerState
unfolding skip_receipts
get_snapshot_timers = do
  state ← get_blob
  count ← get_number
  throw_if (ltb 1024 count) runtime_error
  skip_receipts count
  delivered ← get_flag runtime_error
  skip_blob delivered
  timers ← get_timers true
  throw_unless_empty runtime_error
  pure timers

-- `f(input); return a;`
abbrev pub after {ℓ} : {A : Type ℓ} → Outcome (Unit {0}) → A → Outcome A
after (ok u) a = ok a
after (err e) a = err e

unfoldable pub decode_snapshot_timers : Bytes → Outcome EntityTimerState
unfolding get_snapshot_timers
decode_snapshot_timers input =
    if not (starts_with input (codes "FSP3"))
    then after (validate_snapshot_framing input) no_timers
    else value_of (get_snapshot_timers (drop 4 input))

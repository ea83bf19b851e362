-- ===== src/Delivery/Open.antt =====
-- src/entity_delivery_state.cpp: the readers of the envelope FSD1, the acknowledgement FDA1 and the
-- registry FDR1.
use fsnet.Base.{
  ℕ, zero, suc, ◌+◌, ◌*◌, Bool, false, not, ◌||◌, ◌&&◌, [], ◌∷◌, List, ltb, ◌==◌, length, Bytes,
  codes, starts_with, drop, text_eq, if◌then◌else◌,
}
use fsnet.Base.Errors.{Outcome, err, invalid_argument}
use fsnet.Delivery.{Result, delivery_payload_limit}
use fsnet.Delivery.Decode.{get_message, get_result}
use fsnet.Delivery.Envelope.{DeliveryEnvelope, delivery_ticket}
use fsnet.EntityKey.{decode_entity_key}
use fsnet.Wire.{
  Reader, ◌>>=◌, ◌>>◌, throw_if, pure, call, get_blob, get_integer, get_number, throw_unless_empty,
  value_of,
}

module _ (sha256 : Bytes → Bytes) where
  unfoldable pub get_delivery : Reader DeliveryEnvelope
  get_delivery = do
    (type, id) ← decode_entity_key
    epoch ← get_integer
    message ← get_message
    throw_unless_empty invalid_argument
    let e : DeliveryEnvelope = record {
      source_type = type;
      source_id = id;
      source_epoch = epoch;
      message = message;
    }
    throw_if (epoch == 0 || message.done) invalid_argument
    ticket ← call (delivery_ticket sha256 e)
    throw_if (not (text_eq ticket message.ticket)) invalid_argument
    pure e

  unfoldable pub decode_delivery : Bytes → Outcome DeliveryEnvelope
  decode_delivery input =
      if not (starts_with input (codes "FSD1")) || ltb (delivery_payload_limit * 3) (length input)
      then err invalid_argument
      else value_of (get_delivery (drop 4 input))

unfoldable pub get_ack : Reader (Bytes × Result)
get_ack = do
  ticket ← get_blob
  value ← get_result
  throw_unless_empty invalid_argument
  throw_if (not (length ticket == 64)) invalid_argument
  pure (ticket, value)

unfoldable pub decode_delivery_ack : Bytes → Outcome (Bytes × Result)
unfolding get_ack
decode_delivery_ack input =
    if not (starts_with input (codes "FDA1")) || ltb (delivery_payload_limit + 128) (length input)
    then err invalid_argument
    else value_of (get_ack (drop 4 input))

-- `seen.insert(key).second` is false
unfoldable pub is_seen : Bytes × Bytes → List (Bytes × Bytes) → Bool
unfolding text_eq
is_seen key [] = false
is_seen key (other ∷ seen) = (text_eq key.0 other.0 && text_eq key.1 other.1) || is_seen key seen

-- `seen` are the sources already read.
unfoldable pub get_sources : ℕ → List (Bytes × Bytes) → Reader (List (Bytes × Bytes))
unfolding is_seen
get_sources zero seen = pure []
get_sources (suc n) seen = do
  key ← decode_entity_key
  throw_if (is_seen key seen) invalid_argument
  rest ← get_sources n (key ∷ seen)
  pure (key ∷ rest)

unfoldable pub decode_delivery_sources : Bytes → Outcome (List (Bytes × Bytes))
unfolding get_sources
decode_delivery_sources input =
    if not (starts_with input (codes "FDR1")) || ltb (32 * 1024 * 1024) (length input)
    then err invalid_argument
    else value_of (
        (do
          n ← get_number
          throw_if (ltb 65536 n) invalid_argument
          sources ← get_sources n []
          throw_unless_empty invalid_argument
          pure sources)
          (drop 4 input))

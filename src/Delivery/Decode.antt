-- ===== src/Delivery/Decode.antt =====
-- The readers of src/entity_delivery_state.cpp.
use fsnet.Base.{
  ℕ, zero, suc, not, ◌||◌, [], ◌∷◌, List, ltb, ◌==◌, length, Bytes, codes, Outcome, err,
  invalid_argument, if◌then◌else◌, starts_with, drop,
}
use fsnet.Base.Maps.{Map, emplace}
use fsnet.Delivery.{
  Result, DeliveryMessage, DeliveryCursor, EntityDeliveryState, internal, max_state,
  delivery_payload_limit,
}
use fsnet.Delivery.Channel.{channel_key}
use fsnet.Delivery.Encode.{put_message}
use fsnet.EntityKey.{decode_entity_key}
use fsnet.Storage.{is_member}
use fsnet.Wire.{
  get_flag, value_of, call, Reader, ◌>>=◌, ◌>>◌, throw_if, pure, get_blob, get_integer, get_number,
  get_byte, throw_unless_empty, or_throw,
}

-- `result(in)`
unfoldable pub get_result : Reader Result
get_result = do
  status ← get_byte invalid_argument
  throw_if (ltb internal status) invalid_argument
  data_bytes ← get_blob
  throw_if (ltb delivery_payload_limit (length data_bytes)) invalid_argument
  pure (record { status = status; data_bytes = data_bytes })

-- `message(in)`, with its check that the message could have been written
unfoldable pub get_message : Reader DeliveryMessage
unfolding get_result
get_message = do
  ticket ← get_blob
  (type, id) ← decode_entity_key
  method ← get_blob
  payload ← get_blob
  target_epoch ← get_integer
  sequence ← get_integer
  done ← get_flag invalid_argument
  result ← get_result
  let m : DeliveryMessage = record {
    ticket = ticket;
    type = type;
    id = id;
    method = method;
    payload = payload;
    target_epoch = target_epoch;
    sequence = sequence;
    done = done;
    result = result;
  }
  check ← call (put_message m)
  pure m

unfoldable pub get_sent : ℕ → Map ℕ → Reader (Map ℕ)
get_sent zero sent = pure sent
get_sent (suc n) sent = do
  key ← get_blob
  valid ← call (channel_key key)
  sequence ← get_integer
  throw_if (ltb 512 (length key) || sequence == 0) invalid_argument
  more ← or_throw (emplace key sequence sent) invalid_argument
  get_sent n more

unfoldable pub get_inbox : ℕ → Map DeliveryCursor → Reader (Map DeliveryCursor)
unfolding get_result
get_inbox zero inbox = pure inbox
get_inbox (suc n) inbox = do
  key ← get_blob
  valid ← call (channel_key key)
  sequence ← get_integer
  digest ← get_blob
  result ← get_result
  throw_if (ltb 512 (length key) || sequence == 0 || not (length digest == 64)) invalid_argument
  let cursor : DeliveryCursor = record { sequence = sequence; digest = digest; result = result }
  more ← or_throw (emplace key cursor inbox) invalid_argument
  get_inbox n more

-- `tickets` are those already read.
unfoldable pub get_outbox : ℕ → List Bytes → Reader (List DeliveryMessage)
unfolding get_message
get_outbox zero tickets = pure []
get_outbox (suc n) tickets = do
  m ← get_message
  throw_if (is_member m.ticket tickets) invalid_argument
  outbox ← get_outbox n (m.ticket ∷ tickets)
  pure (m ∷ outbox)

unfoldable pub get_delivery_state : Reader EntityDeliveryState
unfolding get_sent get_inbox get_outbox
get_delivery_state = do
  epoch ← get_integer
  n ← get_number
  throw_if (ltb 4096 n) invalid_argument
  sent ← get_sent n []
  m ← get_number
  throw_if (ltb 4096 m) invalid_argument
  inbox ← get_inbox m []
  k ← get_number
  throw_if (ltb 1024 k) invalid_argument
  outbox ← get_outbox k []
  throw_unless_empty invalid_argument
  throw_if (epoch == 0) invalid_argument
  pure (record { epoch = epoch; sent = sent; inbox = inbox; outbox = outbox })

unfoldable pub decode_delivery_state : Bytes → Outcome EntityDeliveryState
unfolding get_delivery_state
decode_delivery_state input =
    if not (starts_with input (codes "FDS1")) || ltb max_state (length input)
    then err invalid_argument
    else value_of (get_delivery_state (drop 4 input))

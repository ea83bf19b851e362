-- ===== src/Delivery/Encode.antt =====
-- The writers of src/entity_delivery_state.cpp.
use fsnet.Base.{
  ℕ, Bool, not, ◌||◌, [], ◌∷◌, ◌++◌, List, ltb, ◌==◌, length, Bytes, codes, Outcome, ok,
  invalid_argument, length_error,
}
use fsnet.Base.Errors.{◌>>=◌, ◌>>◌, throw_if}
use fsnet.Base.Maps.{Map}
use fsnet.Delivery.{
  Result, DeliveryMessage, DeliveryCursor, EntityDeliveryState, internal, max_state,
  delivery_payload_limit,
}
use fsnet.Delivery.Channel.{channel_key}
use fsnet.EntityKey.{encode_entity_key}
use fsnet.Message.{front_is}
use fsnet.Message.Envelope.{entity_route}
use fsnet.Storage.{is_member}
use fsnet.Wire.{flag, put_blob, put_integer, put_number}

-- `result(out, value)`
unfoldable pub put_result : Result → Outcome Bytes
put_result value = do
  throw_if (ltb internal value.status || ltb delivery_payload_limit (length value.data_bytes))
      invalid_argument
  data_bytes ← put_blob value.data_bytes
  ok ((value.status ∷ []) ++ data_bytes)

abbrev pub bad_message : DeliveryMessage → Bool
bad_message m =
    front_is b'$' m.method
    || m.target_epoch == 0
    || m.sequence == 0
    || not (length m.ticket == 64)
    || ltb delivery_payload_limit (length m.payload)

-- `message(out, m)`
unfoldable pub put_message : DeliveryMessage → Outcome Bytes
unfolding put_result
put_message m = do
  route ← entity_route m.type m.method
  valid ← encode_entity_key m.type m.id
  throw_if (bad_message m) invalid_argument
  ticket ← put_blob m.ticket
  key ← encode_entity_key m.type m.id
  method ← put_blob m.method
  payload ← put_blob m.payload
  result ← put_result m.result
  ok (
      ticket
      ++ (key
          ++ (method
              ++ (payload
                  ++ (put_integer m.target_epoch
                      ++ (put_integer m.sequence ++ ((flag m.done ∷ []) ++ result)))))))

unfoldable pub put_sent : Map ℕ → Outcome Bytes
put_sent [] = ok []
put_sent ((key, n) ∷ sent) = do
  channel_key key
  throw_if (n == 0) invalid_argument
  name ← put_blob key
  rest ← put_sent sent
  ok (name ++ (put_integer n ++ rest))

unfoldable pub put_inbox : Map DeliveryCursor → Outcome Bytes
unfolding put_result
put_inbox [] = ok []
put_inbox ((key, c) ∷ inbox) = do
  channel_key key
  throw_if (c.sequence == 0 || not (length c.digest == 64)) invalid_argument
  name ← put_blob key
  digest ← put_blob c.digest
  result ← put_result c.result
  rest ← put_inbox inbox
  ok (name ++ (put_integer c.sequence ++ (digest ++ (result ++ rest))))

-- `tickets` are those already written.
unfoldable pub put_outbox : List DeliveryMessage → List Bytes → Outcome Bytes
unfolding put_message
put_outbox [] tickets = ok []
put_outbox (m ∷ outbox) tickets = do
  throw_if (is_member m.ticket tickets) invalid_argument
  message ← put_message m
  rest ← put_outbox outbox (m.ticket ∷ tickets)
  ok (message ++ rest)

unfoldable pub encode_delivery_state : EntityDeliveryState → Outcome Bytes
unfolding put_sent put_inbox put_outbox
encode_delivery_state s = do
  throw_if
      (s.epoch == 0
        || ltb 4096 (length s.sent)
        || ltb 4096 (length s.inbox)
        || ltb 1024 (length s.outbox))
      invalid_argument
  sent ← put_sent s.sent
  inbox ← put_inbox s.inbox
  outbox ← put_outbox s.outbox []
  let out =
      codes "FDS1"
      ++ (put_integer s.epoch
          ++ (put_number (length s.sent)
              ++ (sent
                  ++ (put_number (length s.inbox)
                      ++ (inbox ++ (put_number (length s.outbox) ++ outbox))))))
  throw_if (ltb max_state (length out)) length_error
  ok out

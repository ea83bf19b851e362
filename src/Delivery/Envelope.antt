-- ===== src/Delivery/Envelope.antt =====
-- src/entity_delivery_state.cpp: the envelope FSD1 of one message with its ticket, the
-- acknowledgement FDA1, the registry of sources FDR1 and the charge of a state. SHA-256 is a function
-- of the model's parameters.
use fsnet.Base.{
  ℕ, ◌+◌, ◌/◌, ◌%◌, not, ◌||◌, [], ◌∷◌, ◌++◌, List, ltb, ◌==◌, length, Bytes, codes, if◌then◌else◌,
}
use fsnet.Base.Errors.{Outcome, ok, ◌>>=◌, ◌>>◌, throw_if, invalid_argument, length_error}
use fsnet.Delivery.{Result, DeliveryMessage, EntityDeliveryState, delivery_payload_limit}
use fsnet.Delivery.Encode.{put_message, put_result, encode_delivery_state}
use fsnet.EntityId.{hex_char}
use fsnet.EntityKey.{encode_entity_key}
use fsnet.Wire.{put_blob, put_integer, put_number}

pub record DeliveryEnvelope : Type 0 where
  pub source_type : Bytes
  pub source_id : Bytes
  pub source_epoch : ℕ
  pub message : DeliveryMessage

-- `for(auto b:digest){out+=hex[b>>4];out+=hex[b&15];}`
unfoldable pub hex_text : Bytes → Bytes
hex_text [] = []
hex_text (b ∷ digest) = hex_char (b / 16) ∷ hex_char (b % 16) ∷ hex_text digest

unfoldable pub delivery_channel : Bytes → Bytes → ℕ → Outcome Bytes
delivery_channel type id epoch = do
  throw_if (epoch == 0) invalid_argument
  key ← encode_entity_key type id
  ok (key ++ put_integer epoch)

unfoldable pub encode_delivery : DeliveryEnvelope → Outcome Bytes
encode_delivery e = do
  throw_if (e.source_epoch == 0 || e.message.done) invalid_argument
  key ← encode_entity_key e.source_type e.source_id
  message ← put_message e.message
  ok (codes "FSD1" ++ (key ++ (put_integer e.source_epoch ++ message)))

-- the text that a ticket is the hash of
unfoldable pub ticket_text : DeliveryEnvelope → Outcome Bytes
unfolding delivery_channel
ticket_text e = do
  source ← delivery_channel e.source_type e.source_id e.source_epoch
  target ← delivery_channel e.message.type e.message.id e.message.target_epoch
  ok (source ++ (target ++ put_integer e.message.sequence))

module _ (sha256 : Bytes → Bytes) where
  abbrev pub hash : Bytes → Bytes
  hash input = hex_text (sha256 input)

  unfoldable pub delivery_ticket : DeliveryEnvelope → Outcome Bytes
  unfolding ticket_text
  delivery_ticket e = do text ← ticket_text e; ok (hash text)

  unfoldable pub delivery_digest : DeliveryEnvelope → Outcome Bytes
  unfolding encode_delivery
  delivery_digest e = do out ← encode_delivery e; ok (hash out)

unfoldable pub encode_delivery_ack : Bytes → Result → Outcome Bytes
encode_delivery_ack ticket value = do
  throw_if (not (length ticket == 64)) invalid_argument
  name ← put_blob ticket
  result ← put_result value
  ok (codes "FDA1" ++ (name ++ result))

-- `if(!m.done)bytes+=delivery_payload_limit` for each message
unfoldable pub reserved : List DeliveryMessage → ℕ
reserved [] = 0
reserved (m ∷ outbox) = (if m.done then 0 else delivery_payload_limit) + reserved outbox

unfoldable pub delivery_charge : EntityDeliveryState → Outcome ℕ
unfolding reserved
delivery_charge s =
    if s.epoch == 0
    then ok 0
    else (encode_delivery_state s >>= λ out. ok (length out + reserved s.outbox))

unfoldable pub put_sources : List (Bytes × Bytes) → Outcome Bytes
put_sources [] = ok []
put_sources ((type, id) ∷ sources) = do
  key ← encode_entity_key type id
  rest ← put_sources sources
  ok (key ++ rest)

unfoldable pub encode_delivery_sources : List (Bytes × Bytes) → Outcome Bytes
unfolding put_sources
encode_delivery_sources sources = do
  throw_if (ltb 65536 (length sources)) length_error
  keys ← put_sources sources
  ok (codes "FDR1" ++ (put_number (length sources) ++ keys))

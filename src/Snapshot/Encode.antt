-- ===== src/Snapshot/Encode.antt =====
-- `encode_snapshot` of include/fsnet/entity_snapshot.hpp.
use fsnet.Base.{
  Bool, true, false, not, ◌&&◌, ◌||◌, [], ◌∷◌, ◌++◌, List, ltb, ◌==◌, length, is_empty, Bytes,
  codes, Outcome, ok, invalid_argument, length_error,
}
use fsnet.Base.Errors.{◌>>=◌, ◌>>◌, throw_if}
use fsnet.Delivery.{EntityDeliveryState}
use fsnet.Delivery.Encode.{encode_delivery_state}
use fsnet.Snapshot.{EntityReceipt, EntitySnapshot, has_timers}
use fsnet.Timer.{EntityTimerState}
use fsnet.Timer.Encode.{encode_entity_timers}
use fsnet.Wire.{put_blob, put_number, flag}

unfoldable pub put_receipts : List EntityReceipt → Outcome Bytes
put_receipts [] = ok []
put_receipts (r ∷ receipts) = do
  id ← put_blob r.id
  route ← put_blob r.route
  request ← put_blob r.request
  response ← put_blob r.response
  rest ← put_receipts receipts
  ok (id ++ (route ++ (request ++ (response ++ rest))))

-- the part of a snapshot that is there if its flag is set
abbrev pub put_delivery : Bool → EntityDeliveryState → Outcome Bytes
put_delivery true delivery = encode_delivery_state delivery >>= λ text. put_blob text
put_delivery false delivery = ok []

abbrev pub put_timers : Bool → EntityTimerState → Outcome Bytes
put_timers true timers = encode_entity_timers timers >>= λ text. put_blob text
put_timers false timers = ok []

-- the version, by the flags of timers and deliveries
abbrev pub magic : Bool → Bool → Bytes
magic true delivery = codes "FSP3"
magic false true = codes "FSP2"
magic false false = codes "FSP1"

abbrev pub put_presence : Bool → Bool → Bytes
put_presence true delivery = flag delivery ∷ []
put_presence false delivery = []

abbrev pub lacks_epoch : EntityDeliveryState → Bool
lacks_epoch d =
    d.epoch == 0 && (not (is_empty d.sent) || not (is_empty d.inbox) || not (is_empty d.outbox))

unfoldable pub encode_snapshot : EntitySnapshot → Outcome Bytes
unfolding put_receipts
encode_snapshot s = do
  throw_if (lacks_epoch s.delivery) invalid_argument
  let timers = has_timers s.timers
  let delivery = not (s.delivery.epoch == 0)
  state ← put_blob s.state
  throw_if (ltb 1024 (length s.receipts)) length_error
  receipts ← put_receipts s.receipts
  deliveries ← put_delivery delivery s.delivery
  timed ← put_timers timers s.timers
  ok (
      magic timers delivery
      ++ (state
          ++ (put_number (length s.receipts)
              ++ (receipts ++ (put_presence timers delivery ++ (deliveries ++ timed))))))

-- ===== src/Delivery/OpenRoundTrip.antt =====
-- The envelope FSD1 and the acknowledgement FDA1 of src/entity_delivery_state.cpp are read back.
use fsnet.Base.{
  ◌^◌, ◌<◌, ◌≤◌, ◌≡◌, not, ◌||◌, ◌==◌, ap, refl, length, length-append, Bytes, arith, ◌++◌, codes,
  starts_with, text_eq_refl,
}
use fsnet.Base.Errors.{ok, >>=-eq-ok, throw_if-eq-ok, ok-subst}
use fsnet.Base.Tests.{le→ltb_false}
use fsnet.Delivery.{Result}
use fsnet.Delivery.Decode.{get_message, get_result}
use fsnet.Delivery.Encode.{put_message, put_result}
use fsnet.Delivery.Envelope.{
  DeliveryEnvelope, encode_delivery, delivery_ticket, encode_delivery_ack,
}
use fsnet.Delivery.Fields.{Reads-message, Reads-result}
use fsnet.Delivery.Open.{get_delivery, decode_delivery, get_ack, decode_delivery_ack}
use fsnet.Delivery.Sizes.{
  length-put_blob, length-encode_entity_key, length-put_message, length-put_result,
}
use fsnet.EntityKey.{decode_entity_key, encode_entity_key}
use fsnet.EntityKey.RoundTrip.{Reads-encode_entity_key}
use fsnet.Wire.{put_blob, get_blob, put_integer, get_integer, value_of}
use fsnet.Wire.Reads.{ReadsAll, ReadsAll-bind, ReadsAll-last, Reads-put_blob, Reads-integer}
use fsnet.Wire.RoundTrip.{length-put_uint}

-- An acknowledgement is read back: its ticket and its result.
pub decode-encode_delivery_ack :
    (ticket out : Bytes) (value : Result)
    → encode_delivery_ack ticket value ≡ ok out
    → decode_delivery_ack out ≡ ok (ticket, value)
unfolding encode_delivery_ack decode_delivery_ack get_ack starts_with
decode-encode_delivery_ack ticket out value h =
    let (sized, h1) = throw_if-eq-ok (not (length ticket == 64)) _ _ h in
    let (name, e2, h2) = >>=-eq-ok (put_blob ticket) _ h1 in
    let (result, e3, same) = >>=-eq-ok (put_result value) _ h2 in
    let long : length (codes "FDA1" ++ (name ++ result)) ≤ 65664 = ground (
      arith,
      sized,
      length-append name result,
      length-put_blob ticket name e2,
      length-put_result value result e3,
    ) in
    let r : ReadsAll get_ack (name ++ result) (ticket, value) =
      ReadsAll-bind get_blob _ name result ticket _ (Reads-put_blob _ _ e2) (
        ReadsAll-last get_result _ result value _ (Reads-result value result e3) (rw sized refl)) in
    ok-subst (λ x. decode_delivery_ack x ≡ ok (ticket, value)) same
      (rw (le→ltb_false 65664 (length (codes "FDA1" ++ (name ++ result))) long) (ap value_of r.at))

-- An envelope whose message carries the ticket of the envelope is read back, whatever hash makes the
-- tickets. Its numbers are those of 64-bit words.
pub decode-encode_delivery :
    (sha256 : Bytes → Bytes) (e : DeliveryEnvelope) (out : Bytes)
    → e.source_epoch < 2 ^ 64
    → e.message.target_epoch < 2 ^ 64
    → e.message.sequence < 2 ^ 64
    → delivery_ticket sha256 e ≡ ok e.message.ticket
    → encode_delivery e ≡ ok out
    → decode_delivery sha256 out ≡ ok e
unfolding encode_delivery decode_delivery get_delivery starts_with
decode-encode_delivery sha256 e out w1 w2 w3 ticket h =
    let (pending, h1) = throw_if-eq-ok (e.source_epoch == 0 || e.message.done) _ _ h in
    let (key, e2, h2) = >>=-eq-ok (encode_entity_key e.source_type e.source_id) _ h1 in
    let (message, e3, same) = >>=-eq-ok (put_message e.message) _ h2 in
    let body = key ++ (put_integer e.source_epoch ++ message) in
    let long : length (codes "FSD1" ++ body) ≤ 196608 = omega (
      arith,
      length-append key (put_integer e.source_epoch ++ message),
      length-append (put_integer e.source_epoch) message,
      length-encode_entity_key e.source_type e.source_id key e2,
      length-put_message e.message message e3,
      length-put_uint 8 e.source_epoch,
    ) in
    let r : ReadsAll (get_delivery sha256) body e =
      ReadsAll-bind decode_entity_key _ key _ (e.source_type, e.source_id) _
        (Reads-encode_entity_key _ _ key e2)
        (ReadsAll-bind get_integer _ (put_integer e.source_epoch) message e.source_epoch _
          (Reads-integer e.source_epoch w1)
          (ReadsAll-last get_message _ message e.message _
            (Reads-message e.message message w2 w3 e3)
            (rw (pending, ticket, text_eq_refl e.message.ticket) refl))) in
    ok-subst (λ x. decode_delivery sha256 x ≡ ok e) same
      (rw (le→ltb_false 196608 (length (codes "FSD1" ++ body)) long) (ap value_of r.at))

-- ===== src/Delivery/Fields.antt =====
-- Results and messages of src/entity_delivery_state.cpp are read back.
use fsnet.Base.{◌<◌, ◌^◌, ◌≡◌, ◌||◌, [], arith, ltb, length, Bytes, ok}
use fsnet.Base.Errors.{invalid_argument, ok-subst, >>=-eq-ok, throw_if-eq-ok}
use fsnet.Delivery.{Result, DeliveryMessage, internal, delivery_payload_limit}
use fsnet.Delivery.Decode.{get_result, get_message}
use fsnet.Delivery.Encode.{put_result, put_message, bad_message}
use fsnet.EntityKey.{decode_entity_key, encode_entity_key}
use fsnet.EntityKey.RoundTrip.{Reads-encode_entity_key}
use fsnet.Message.Envelope.{entity_route}
use fsnet.Wire.{get_flag, call, get_integer, get_blob, put_blob, get_byte}
use fsnet.Wire.Reads.{
  Reads-flag, Reads-call, Reads-put_blob, Reads-byte, Reads, Reads-bind, Reads-guard, Reads-pure,
  Reads-end, Reads-integer,
}

pub Reads-result :
    (value : Result) (out : Bytes) → put_result value ≡ ok out → Reads get_result out value
unfolding put_result get_result
Reads-result value out h =
    let (good, rest) =
      throw_if-eq-ok
        (ltb internal value.status || ltb delivery_payload_limit (length value.data_bytes)) _ _ h in
    let (bytes, written, same) = >>=-eq-ok (put_blob value.data_bytes) _ rest in
    ok-subst (λ text. Reads get_result text value) same
      (Reads-bind (get_byte invalid_argument) _ _ _ value.status _
        (Reads-byte invalid_argument value.status)
        (Reads-guard (ltb internal value.status) invalid_argument _ _ _ (ground arith) (
          Reads-end get_blob _ bytes value.data_bytes _ (Reads-put_blob _ _ written)
            (Reads-guard _ invalid_argument _ _ _ (ground arith) (Reads-pure value)))))

-- A message that was written is read back; its numbers are those of 64-bit words.
pub Reads-message :
    (m : DeliveryMessage) (out : Bytes)
    → m.target_epoch < 2 ^ 64
    → m.sequence < 2 ^ 64
    → put_message m ≡ ok out
    → Reads get_message out m
unfolding put_message get_message
Reads-message m out epoch_word sequence_word h =
    let (route, routed, h1) = >>=-eq-ok (entity_route m.type m.method) _ h in
    let (valid, checked, h2) = >>=-eq-ok (encode_entity_key m.type m.id) _ h1 in
    let (good, h3) = throw_if-eq-ok (bad_message m) _ _ h2 in
    let (ticket, e4, h4) = >>=-eq-ok (put_blob m.ticket) _ h3 in
    let (key, e5, h5) = >>=-eq-ok (encode_entity_key m.type m.id) _ h4 in
    let (method, e6, h6) = >>=-eq-ok (put_blob m.method) _ h5 in
    let (payload, e7, h7) = >>=-eq-ok (put_blob m.payload) _ h6 in
    let (result, e8, same) = >>=-eq-ok (put_result m.result) _ h7 in
    ok-subst (λ text. Reads get_message text m) same
      (Reads-bind get_blob _ _ _ m.ticket _ (Reads-put_blob _ _ e4) (
        Reads-bind decode_entity_key _ _ _ (m.type, m.id) _ (Reads-encode_entity_key _ _ _ e5)
          (Reads-bind get_blob _ _ _ m.method _ (Reads-put_blob _ _ e6) (
            Reads-bind get_blob _ _ _ m.payload _ (Reads-put_blob _ _ e7) (
              Reads-bind get_integer _ _ _ m.target_epoch _ (Reads-integer _ epoch_word) (
                Reads-bind get_integer _ _ _ m.sequence _ (Reads-integer _ sequence_word) (
                  Reads-bind (get_flag invalid_argument) _ _ _ m.done _
                    (Reads-flag invalid_argument m.done)
                    (Reads-end get_result _ result m.result _ (Reads-result _ _ e8) (
                      Reads-end (call (put_message m)) _ [] out _ (Reads-call _ out h)
                        (Reads-pure m))))))))))

-- ===== src/Delivery/Sizes.antt =====
-- How long the parts are that src/entity_delivery_state.cpp writes.
use fsnet.Base.{
  inr, ◌^◌, false, inl, ◌%◌, ◌+◌, ◌≤◌, ◌≡◌, ◌||◌, ◌∙◌, ap, refl, ltb, length, length-append, Bytes,
  arith, [], ◌∷◌, ◌++◌,
}
use fsnet.Base.Errors.{ok, >>=-eq-ok, throw_if-eq-ok, ok-subst}
use fsnet.Base.Tests.{Bool-cases}
use fsnet.Delivery.{Result, DeliveryMessage, internal, delivery_payload_limit}
use fsnet.Delivery.Encode.{put_result, put_message, bad_message}
use fsnet.EntityKey.{encode_entity_key, bad_key}
use fsnet.EntityKey.RoundTrip.{key_lengths}
use fsnet.Message.Envelope.{entity_route, bad_part}
use fsnet.Wire.{put_blob, put_uint, put_integer, put_number, flag}
use fsnet.Wire.RoundTrip.{length-put_uint, put_blob_fits}

pub length-put_blob : (text out : Bytes) → put_blob text ≡ ok out → length out ≡ 4 + length text
length-put_blob text out h =
    let (_, e) = put_blob_fits text out h in
    ap length e
    ∙ omega (
      arith,
      length-append (put_number (length text)) text,
      length-put_uint 4 (length text % 2 ^ 32),
    )

pub length-encode_entity_key :
    (type id out : Bytes) → encode_entity_key type id ≡ ok out → length out ≤ 386
unfolding encode_entity_key
length-encode_entity_key type id out h = elim (Bool-cases (bad_key type id)) [
  | inl bad ↦ cc (rw bad at h)
  | inr good ↦
      let (a, b) = key_lengths type id good in
      ok-subst (λ x. length x ≤ 386) (rw good at h)
        (omega (
          arith,
          a,
          b,
          length-append (put_uint 1 (length type)) (type ++ (put_uint 2 (length id) ++ id)),
          length-append type (put_uint 2 (length id) ++ id),
          length-append (put_uint 2 (length id)) id,
          length-put_uint 1 (length type),
          length-put_uint 2 (length id),
        ))
]

pub length-put_result :
    (value : Result) (out : Bytes) → put_result value ≡ ok out → length out ≤ 65541
unfolding put_result
length-put_result value out h =
    let (good, k) =
      throw_if-eq-ok
        (ltb internal value.status || ltb delivery_payload_limit (length value.data_bytes)) _ _ h in
    let (bytes, written, same) = >>=-eq-ok (put_blob value.data_bytes) _ k in
    let small : length value.data_bytes ≤ 65536 = ground (arith, good) in
    ok-subst (λ x. length x ≤ 65541) same
      (omega (arith, small, length-put_blob value.data_bytes bytes written))

part_length : (part : Bytes) → bad_part part ≡ false → length part ≤ 127
part_length part h = ground (arith, h)

message_length :
    (a b c d e f g h : Bytes)
    → length a ≤ 68
    → length b ≤ 386
    → length c ≤ 131
    → length d ≤ 65540
    → length e ≡ 8
    → length f ≡ 8
    → length g ≡ 1
    → length h ≤ 65541
    → length (a ++ (b ++ (c ++ (d ++ (e ++ (f ++ (g ++ h))))))) ≤ 131683
message_length a b c d e f g h h1 h2 h3 h4 h5 h6 h7 h8 = omega (
  arith,
  length-append a (b ++ (c ++ (d ++ (e ++ (f ++ (g ++ h)))))),
  length-append b (c ++ (d ++ (e ++ (f ++ (g ++ h))))),
  length-append c (d ++ (e ++ (f ++ (g ++ h)))),
  length-append d (e ++ (f ++ (g ++ h))),
  length-append e (f ++ (g ++ h)),
  length-append f (g ++ h),
  length-append g h,
)

pub length-put_message :
    (m : DeliveryMessage) (out : Bytes) → put_message m ≡ ok out → length out ≤ 131683
unfolding put_message entity_route
length-put_message m out h =
    let (route, routed, h1) = >>=-eq-ok (entity_route m.type m.method) _ h in
    let (valid, checked, h2) = >>=-eq-ok (encode_entity_key m.type m.id) _ h1 in
    let (good, h3) = throw_if-eq-ok (bad_message m) _ _ h2 in
    let (ticket, e4, h4) = >>=-eq-ok (put_blob m.ticket) _ h3 in
    let (key, e5, h5) = >>=-eq-ok (encode_entity_key m.type m.id) _ h4 in
    let (method, e6, h6) = >>=-eq-ok (put_blob m.method) _ h5 in
    let (payload, e7, h7) = >>=-eq-ok (put_blob m.payload) _ h6 in
    let (result, e8, same) = >>=-eq-ok (put_result m.result) _ h7 in
    let (_, r1) = throw_if-eq-ok (bad_part m.type) _ _ routed in
    let (named, _) = throw_if-eq-ok (bad_part m.method) _ _ r1 in
    let l1 : length m.ticket ≡ 64 = ground (arith, good) in
    let l2 : length m.payload ≤ 65536 = ground (arith, good) in
    ok-subst (λ x. length x ≤ 131683) same
      (message_length ticket key method payload (put_integer m.target_epoch)
        (put_integer m.sequence) (flag m.done ∷ []) result
        (omega (arith, l1, length-put_blob m.ticket ticket e4))
        (length-encode_entity_key m.type m.id key e5)
        (omega (arith, part_length m.method named, length-put_blob m.method method e6))
        (omega (arith, l2, length-put_blob m.payload payload e7)) (length-put_uint 8 m.target_epoch)
        (length-put_uint 8 m.sequence) refl (length-put_result m.result result e8))

-- ===== src/Delivery/OpenTests.antt =====
-- Tests of the envelope FSD1 of src/entity_delivery_state.cpp.
use fsnet.Base.{refl, arith, false, ◌∷◌, ◌≡◌, ◌++◌, [], ℕ, zero, suc}
use fsnet.Base.Errors.{ok}
use fsnet.Base.Texts.{contains_byte, codes, Bytes}
use fsnet.Delivery.Encode.{put_result, put_message}
use fsnet.Delivery.Envelope.{
  delivery_channel, hex_text, ticket_text, DeliveryEnvelope, encode_delivery, delivery_ticket,
}
use fsnet.Delivery.Open.{decode_delivery}
use fsnet.Delivery.OpenRoundTrip.{decode-encode_delivery}
use fsnet.EntityKey.{encode_entity_key}
use fsnet.Message.{has_separator}
use fsnet.Message.Envelope.{entity_route}
use fsnet.Wire.{put_blob, put_uint}

-- A digest of 32 zeros for every text, which is enough to follow a run.
abbrev zeros : ℕ → Bytes
zeros zero = []
zeros (suc n) = 0 ∷ zeros n

abbrev sha256 : Bytes → Bytes
sha256 text = zeros 32

abbrev parcel : DeliveryEnvelope
parcel = record {
  source_type = codes "pc";
  source_id = codes "b2";
  source_epoch = 4;
  message = record {
    ticket = hex_text (zeros 32);
    type = codes "npc";
    id = codes "a1";
    method = codes "hit";
    payload = codes "5";
    target_epoch = 9;
    sequence = 1;
    done = false;
    result = record { status = 0; data_bytes = [] };
  };
}

abbrev parcel_record : Bytes
parcel_record =
    codes "FSD1"
    ++ (2 ∷ codes "pc"
        ++ (0 ∷ 2 ∷ codes "b2"
            ++ (0 ∷ 0 ∷ 0 ∷ 0 ∷ 0 ∷ 0 ∷ 0 ∷ 4 ∷ 0 ∷ 0 ∷ 0 ∷ 64 ∷ hex_text (zeros 32)
                ++ (3 ∷ codes "npc"
                    ++ (0 ∷ 2 ∷ codes "a1"
                        ++ (0 ∷ 0 ∷ 0 ∷ 3 ∷ codes "hit"
                            ++ (0 ∷ 0 ∷ 0 ∷ 1 ∷ codes "5"
                                ++ (0 ∷ 0 ∷ 0 ∷ 0 ∷ 0 ∷ 0 ∷ 0 ∷ 9 ∷ 0 ∷ 0 ∷ 0 ∷ 0 ∷ 0 ∷ 0 ∷ 0 ∷ 1
                                    ∷ 0 ∷ 0 ∷ 0 ∷ 0 ∷ 0 ∷ 0 ∷ []))))))))

parcel_ticket : delivery_ticket sha256 parcel ≡ ok parcel.message.ticket
unfolding delivery_ticket ticket_text delivery_channel encode_entity_key has_separator contains_byte
    hex_text put_uint
parcel_ticket = refl

parcel_written : encode_delivery parcel ≡ ok parcel_record
unfolding encode_delivery put_message put_result encode_entity_key entity_route has_separator
    contains_byte hex_text put_uint put_blob
parcel_written = refl

decode-encode_delivery_example : decode_delivery sha256 parcel_record ≡ ok parcel
decode-encode_delivery_example =
    decode-encode_delivery sha256 parcel parcel_record (omega arith) (omega arith) (omega arith)
      parcel_ticket parcel_written

-- ===== src/Delivery/Tests.antt =====
-- A delivery state at a concrete input.
use fsnet.Base.{false, ◌++◌, ◌≡◌, refl, [], ◌∷◌, arith, ok, codes, Bytes}
use fsnet.Base.Texts.{contains_byte}
use fsnet.Delivery.{EntityDeliveryState, DeliveryMessage}
use fsnet.Delivery.Channel.{get_channel, channel_key}
use fsnet.Delivery.Decode.{decode_delivery_state}
use fsnet.Delivery.Encode.{
  put_sent, put_result, put_message, put_outbox, put_inbox, encode_delivery_state,
}
use fsnet.Delivery.RoundTrip.{decode-encode_delivery_state}
use fsnet.EntityKey.{decode_entity_key, encode_entity_key}
use fsnet.Message.{has_separator}
use fsnet.Message.Envelope.{entity_route}
use fsnet.Storage.{is_member}
use fsnet.Wire.{take_text, get_uint, get_loop, put_uint, put_blob}

abbrev pub sixteen : Bytes
sixteen = codes "0123456789abcdef"

abbrev pub digest : Bytes
digest = sixteen ++ (sixteen ++ (sixteen ++ sixteen))

abbrev pub channel : Bytes
channel = (3 ∷ codes "npc") ++ (0 ∷ 2 ∷ codes "a1" ++ (0 ∷ 0 ∷ 0 ∷ 0 ∷ 0 ∷ 0 ∷ 0 ∷ 9 ∷ []))

abbrev pub letter : DeliveryMessage
letter = record {
  ticket = digest;
  type = codes "npc";
  id = codes "a1";
  method = codes "hit";
  payload = codes "5";
  target_epoch = 9;
  sequence = 1;
  done = false;
  result = record { status = 0; data_bytes = [] };
}

abbrev pub mailbox : EntityDeliveryState
mailbox = record {
  epoch = 4;
  sent = (channel, 1) ∷ [];
  inbox =
      (
        channel,
        record {
          sequence = 3;
          digest = digest;
          result = record { status = 0; data_bytes = codes "ok" };
        },
      )
      ∷ [];
  outbox = letter ∷ [];
}

abbrev pub mailbox_record : Bytes
mailbox_record =
    codes "FDS1"
    ++ (0 ∷ 0 ∷ 0 ∷ 0 ∷ 0 ∷ 0 ∷ 0 ∷ 4 ∷ 0 ∷ 0 ∷ 0 ∷ 1 ∷ 0 ∷ 0 ∷ 0 ∷ 16 ∷ channel
        ++ (0 ∷ 0 ∷ 0 ∷ 0 ∷ 0 ∷ 0 ∷ 0 ∷ 1 ∷ 0 ∷ 0 ∷ 0 ∷ 1 ∷ 0 ∷ 0 ∷ 0 ∷ 16 ∷ channel
            ++ (0 ∷ 0 ∷ 0 ∷ 0 ∷ 0 ∷ 0 ∷ 0 ∷ 3 ∷ 0 ∷ 0 ∷ 0 ∷ 64 ∷ digest
                ++ (0 ∷ 0 ∷ 0 ∷ 0 ∷ 2 ∷ codes "ok"
                    ++ (0 ∷ 0 ∷ 0 ∷ 1 ∷ 0 ∷ 0 ∷ 0 ∷ 64 ∷ digest
                        ++ (3 ∷ codes "npc"
                            ++ (0 ∷ 2 ∷ codes "a1"
                                ++ (0 ∷ 0 ∷ 0 ∷ 3 ∷ codes "hit"
                                    ++ (0 ∷ 0 ∷ 0 ∷ 1 ∷ codes "5"
                                        ++ (0 ∷ 0 ∷ 0 ∷ 0 ∷ 0 ∷ 0 ∷ 0 ∷ 9 ∷ 0 ∷ 0 ∷ 0 ∷ 0 ∷ 0 ∷ 0
                                            ∷ 0 ∷ 1 ∷ 0 ∷ 0 ∷ 0 ∷ 0 ∷ 0 ∷ 0 ∷ []))))))))))

pub mailbox_written : encode_delivery_state mailbox ≡ ok mailbox_record
unfolding encode_delivery_state put_sent put_inbox put_outbox put_message put_result channel_key
    get_channel decode_entity_key take_text get_uint get_loop put_uint put_blob entity_route
    has_separator contains_byte encode_entity_key is_member
mailbox_written = refl

decode-encode_delivery_state_example : decode_delivery_state mailbox_record ≡ ok mailbox
decode-encode_delivery_state_example =
    decode-encode_delivery_state mailbox mailbox_record (omega arith) ((omega arith, tt), tt)
      ((omega arith, tt), tt) ((omega arith, omega arith), tt) mailbox_written

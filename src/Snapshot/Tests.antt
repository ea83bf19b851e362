-- ===== src/Snapshot/Tests.antt =====
-- A snapshot with a receipt and deliveries.
use fsnet.Base.{◌≡◌, refl, [], ◌∷◌, ◌++◌, arith, ok, codes, Bytes}
use fsnet.Delivery.Tests.{mailbox, mailbox_record, mailbox_written}
use fsnet.Snapshot.{EntitySnapshot, no_timers}
use fsnet.Snapshot.Decode.{decode_snapshot, validate_snapshot_framing, decode_snapshot_timers}
use fsnet.Snapshot.Encode.{put_receipts, encode_snapshot}
use fsnet.Snapshot.Framing.{readers_agree}
use fsnet.Snapshot.RoundTrip.{decode-encode_snapshot, DeliveryFits, TimersFit}
use fsnet.Wire.{put_blob, put_uint}

abbrev pub image : EntitySnapshot
image = record {
  state = codes "hp";
  receipts =
      record { id = codes "r"; route = codes "npc.hit"; request = []; response = codes "ok" } ∷ [];
  delivery = mailbox;
  timers = no_timers;
}

abbrev pub image_record : Bytes
image_record =
    codes "FSP2"
    ++ ((0 ∷ 0 ∷ 0 ∷ 2 ∷ codes "hp")
        ++ ((0 ∷ 0 ∷ 0 ∷ 1 ∷ 0 ∷ 0 ∷ 0 ∷ 1 ∷ codes "r")
            ++ ((0 ∷ 0 ∷ 0 ∷ 7 ∷ codes "npc.hit")
                ++ ((0 ∷ 0 ∷ 0 ∷ 0 ∷ 0 ∷ 0 ∷ 0 ∷ 2 ∷ codes "ok")
                    ++ ((0 ∷ 0 ∷ 1 ∷ 9 ∷ []) ++ mailbox_record)))))

pub image_written : encode_snapshot image ≡ ok image_record
unfolding encode_snapshot put_receipts put_blob put_uint
image_written = rw mailbox_written refl

pub image_delivery : DeliveryFits image.delivery
image_delivery = record {
  epoch = omega arith;
  sent = ((omega arith, tt), tt);
  inbox = ((omega arith, tt), tt);
  outbox = ((omega arith, omega arith), tt);
}

pub image_timers : TimersFit image.timers
image_timers = record { sequence = omega arith; sorted = tt; times = tt }

decode-encode_snapshot_example : decode_snapshot image_record ≡ ok image
decode-encode_snapshot_example =
    decode-encode_snapshot image image_record image_delivery image_timers image_written

readers_agree_example :
    (validate_snapshot_framing image_record ≡ ok tt)
    × (decode_snapshot_timers image_record ≡ ok no_timers)
readers_agree_example =
    readers_agree image_record image
      (decode-encode_snapshot image image_record image_delivery image_timers image_written)

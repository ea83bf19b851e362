-- ===== src/EntityRecord/Tests.antt =====
-- A record at a concrete input.
use fsnet.Base.{◌≡◌, refl, true, false, [], ◌∷◌, ◌++◌, some, arith, ok, codes, Bytes}
use fsnet.Base.Int.{pos}
use fsnet.Base.Texts.{contains_byte, starts_with}
use fsnet.EntityId.{all_hex}
use fsnet.EntityRecord.{
  EntityRecord, EntityMetadata, valid_entity_metadata, bad_placement, valid_entity_node,
  valid_connection_key, decimal_value,
}
use fsnet.EntityRecord.Encode.{encode_entity_record}
use fsnet.EntityRecord.Fields.{RecordFits}
use fsnet.EntityRecord.RoundTrip.{decode-encode_entity_record}
use fsnet.EntityRecord.View.{decode_entity_record}
use fsnet.Message.{has_separator}
use fsnet.Snapshot.Tests.{image, image_record, image_written, image_delivery, image_timers}
use fsnet.Wire.{put_blob, put_uint}

abbrev player_connection : Bytes
player_connection = codes "connection/0123456789abcdef0123456789abcdef/17"

-- A generation has no leading zero.
connection_accepted : valid_connection_key player_connection ≡ true
unfolding valid_connection_key starts_with all_hex decimal_value
connection_accepted = refl

connection_refused :
    valid_connection_key (codes "connection/0123456789abcdef0123456789abcdef/017") ≡ false
unfolding valid_connection_key starts_with all_hex decimal_value
connection_refused = refl

abbrev player_metadata : EntityMetadata
player_metadata = record {
  type = codes "npc";
  owner_connection = player_connection;
  creation_digest = codes "0123456789abcdef0123456789abcdef";
  rebuildable = false;
  destroyed = true;
  initial_state = [];
  owner_revision = 1;
}

abbrev player : EntityRecord
player = record {
  owner = codes "n1/x";
  expires_ms = pos 5;
  fence = 2;
  snapshot = image;
  initialized = true;
  placement = codes "n1";
  transfer_id = 3;
  metadata = some player_metadata;
}

abbrev pub player_record : Bytes
player_record =
    codes "FER5"
    ++ ((0 ∷ 0 ∷ 0 ∷ 4 ∷ codes "n1/x")
        ++ ((0 ∷ 0 ∷ 0 ∷ 0 ∷ 0 ∷ 0 ∷ 0 ∷ 5 ∷ 0 ∷ 0 ∷ 0 ∷ 0 ∷ 0 ∷ 0 ∷ 0 ∷ 2 ∷ 1 ∷ [])
            ++ ((0 ∷ 0 ∷ 0 ∷ 2 ∷ codes "n1")
                ++ ((0 ∷ 0 ∷ 0 ∷ 0 ∷ 0 ∷ 0 ∷ 0 ∷ 3 ∷ [])
                    ++ ((0 ∷ 0 ∷ 0 ∷ 3 ∷ codes "npc")
                        ++ ((0 ∷ 0 ∷ 0 ∷ 46 ∷ player_connection)
                            ++ ((2 ∷ 0 ∷ 0 ∷ 0 ∷ 0 ∷ codes "0123456789abcdef0123456789abcdef")
                                ++ ((0 ∷ 0 ∷ 0 ∷ 0 ∷ 0 ∷ 0 ∷ 0 ∷ 1 ∷ []) ++ image_record))))))))

player_written : encode_entity_record player ≡ ok player_record
unfolding encode_entity_record put_blob put_uint bad_placement valid_entity_node contains_byte
    valid_entity_metadata has_separator valid_connection_key starts_with all_hex decimal_value
player_written = rw image_written refl

player_fits : RecordFits player player_metadata
player_fits = record {
  expires = omega arith;
  transfer = omega arith;
  revision = omega arith;
  delivery = image_delivery;
  timers = image_timers;
}

decode-encode_entity_record_example : decode_entity_record player_record ≡ ok player
decode-encode_entity_record_example =
    decode-encode_entity_record player player_metadata player_record refl player_fits player_written

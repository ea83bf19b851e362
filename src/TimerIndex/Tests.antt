-- ===== src/TimerIndex/Tests.antt =====
-- Tests of the timer index of src/entity_timer_index.cpp.
use fsnet.EntityId.{str_loop}
use fsnet.Base.{if◌then◌else◌, false, some, arith, ◌++◌, true, ℕ, [], ◌∷◌, ok, refl, ◌≡◌}
use fsnet.Base.Int.{pos}
use fsnet.Base.Maps.{find, insert_or_assign}
use fsnet.Base.Texts.{contains_byte, starts_with, text_lt, text_eq, codes, Bytes}
use fsnet.EntityId.{all_hex, str, hex_value, entity_id, parse_digits, from_text}
use fsnet.EntityRecord.{
  decimal_value, valid_connection_key, valid_entity_metadata, valid_entity_node, bad_placement,
  entity_record_key,
}
use fsnet.EntityRecord.Decode.{header}
use fsnet.EntityRecord.Tests.{player_record}
use fsnet.EntityRecord.View.{decode_entity_record_view}
use fsnet.Message.{has_separator}
use fsnet.Snapshot.Decode.{validate_snapshot_framing}
use fsnet.Storage.{transact, compare_exchange, get, version_of, Memory}
use fsnet.Storage.Apply.{IsStore}
use fsnet.Storage.Contract.{memory_storage}
use fsnet.Storage.Tests.{empty_store-IsStore, empty_store}
use fsnet.Storage.Transact.{transact-IsStore}
use fsnet.TimerIndex.{storage_key, bad_entry, shard, identity, Entry, Bucket}
use fsnet.TimerIndex.Armed.{read-arm}
use fsnet.TimerIndex.Encode.{encode_bucket}
use fsnet.TimerIndex.Operations.{arm, read, write}
use fsnet.TimerIndex.Reread.{read-write}
use fsnet.Wire.{get_byte, get_flag, take_text, get_blob, get_loop, get_uint, put_uint, put_blob}

abbrev npc_id : Bytes
npc_id = codes "0000000000000001"

abbrev alarm : Entry
alarm = record {
  type = codes "npc";
  id = npc_id;
  token = codes "t1";
  base_version = 1;
  fence = 2;
  due_ms = pos 5000;
  pending = true;
  placement = [];
}

abbrev first_bucket : Bucket
first_bucket = record { version = 0; entries = (identity alarm.type alarm.id, alarm) ∷ [] }

-- FNV-1a, which takes this identity to the shard 50
npc_shard : shard npc_id ≡ 50
unfolding shard
npc_shard = refl

abbrev bucket_text : Bytes
bucket_text =
    codes "FTI2"
    ++ (0 ∷ 0 ∷ 0 ∷ 1 ∷ 0 ∷ 0 ∷ 0 ∷ 3 ∷ codes "npc"
        ++ (0 ∷ 0 ∷ 0 ∷ 16 ∷ npc_id
            ++ (0 ∷ 0 ∷ 0 ∷ 2 ∷ codes "t1"
                ++ (0 ∷ 0 ∷ 0 ∷ 0 ∷ 0 ∷ 0 ∷ 0 ∷ 1 ∷ 0 ∷ 0 ∷ 0 ∷ 0 ∷ 0 ∷ 0 ∷ 0 ∷ 2 ∷ 0 ∷ 0 ∷ 0 ∷ 0
                    ∷ 0 ∷ 0 ∷ 19 ∷ 136 ∷ 0 ∷ 0 ∷ 0 ∷ 0 ∷ 1 ∷ []))))

abbrev indexed : Memory
indexed = record {
  records = (codes "fsnet/timers/index/v1/50", record { value = bucket_text; version = 1 }) ∷ [];
  revision = 1;
}

bucket_written : write memory_storage 50 first_bucket empty_store ≡ ok (true, indexed)
unfolding write encode_bucket bad_entry storage_key identity put_blob put_uint text_eq shard
    compare_exchange transact insert_or_assign find
bucket_written = refl

read-write_example :
    (key : Bytes) × (storage_key 50 ≡ ok key)
    × (version_of (get key empty_store) ≡ 0)
    × (version : ℕ) × (read memory_storage 50 indexed
        ≡ ok (record { version = version; entries = first_bucket.entries }))
read-write_example =
    read-write memory_storage 50 first_bucket empty_store indexed empty_store-IsStore
      (record { base_version = omega arith; fence = omega arith; due_ms = omega arith }, tt) tt
      bucket_written

-- The store with the record of the entity.
abbrev populated : Memory
populated = record {
  records =
      (codes "fsnet/entity/v2/0000000000000001", record { value = player_record; version = 1 })
      ∷ [];
  revision = 1;
}

entity_created :
    transact
      (record {
        key = codes "fsnet/entity/v2/0000000000000001";
        expected = 0;
        value = some player_record;
        check_only = false;
      }
        ∷ [])
      empty_store
    ≡ ok (true, populated)
unfolding transact find insert_or_assign
entity_created = refl

populated-IsStore : IsStore populated
populated-IsStore =
    (transact-IsStore _ empty_store populated true empty_store-IsStore entity_created).0

abbrev rearmed : Memory
rearmed = record {
  records =
      (codes "fsnet/entity/v2/0000000000000001", record { value = player_record; version = 1 })
      ∷ (codes "fsnet/timers/index/v1/50", record { value = bucket_text; version = 2 })
      ∷ [];
  revision = 2;
}

not_indexed :
    read memory_storage (shard npc_id) populated ≡ ok (record { version = 0; entries = [] })
unfolding read storage_key shard get find text_eq
not_indexed = refl

alarm_armed : arm memory_storage alarm populated ≡ ok rearmed
unfolding arm encode_bucket bad_entry storage_key identity put_blob put_uint text_eq text_lt shard
    compare_exchange transact insert_or_assign find get from_text parse_digits entity_id hex_value
    entity_record_key str decode_entity_record_view header validate_snapshot_framing get_uint
    get_loop get_blob take_text get_flag get_byte starts_with bad_placement valid_entity_node
    valid_entity_metadata has_separator contains_byte valid_connection_key all_hex decimal_value
    str_loop
alarm_armed = refl

read-arm_example :
    (later : Bucket) × (read memory_storage (shard npc_id) rearmed ≡ ok later)
    × ((key : Bytes)
        → find key later.entries
          ≡ (if text_eq (identity alarm.type alarm.id) key then some alarm else find key []))
read-arm_example =
    read-arm memory_storage alarm (record { version = 0; entries = [] }) populated rearmed
      populated-IsStore
      (record { base_version = omega arith; fence = omega arith; due_ms = omega arith }) tt tt
      not_indexed alarm_armed

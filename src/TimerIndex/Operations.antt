-- ===== src/TimerIndex/Operations.antt =====
-- read, write and arm of src/entity_timer_index.cpp, over a storage.
use fsnet.Base.{zero, suc, none, some, []}
use fsnet.Base.{◌==◌, if◌then◌else◌, not, ltb, suc, some, false, [], Bool, Option, ℕ}
use fsnet.Base.Errors.{invalid_argument, runtime_error, err, ok, Outcome, ◌>>=◌, ◌>>◌, throw_if}
use fsnet.Base.Maps.{insert_or_assign, find}
use fsnet.EntityId.{from_text}
use fsnet.EntityRecord.{entity_record_key}
use fsnet.EntityRecord.View.{decode_entity_record_view}
use fsnet.Storage.{Record}
use fsnet.Storage.Contract.{StorageContract}
use fsnet.TimerIndex.{identity, shard, bad_entry, storage_key, Entry, Bucket}
use fsnet.TimerIndex.Decode.{decode_bucket}
use fsnet.TimerIndex.Encode.{encode_bucket}

-- What `read` makes of the record that it got.
unfoldable pub bucket_of : Option Record → Outcome Bucket
bucket_of none = ok (record { version = 0; entries = [] })
bucket_of (some r) = do
  entries ← decode_bucket r.value
  ok (record { version = r.version; entries = entries })

-- `arm`'s test of the entry that the bucket has already.
unfoldable pub is_stale : Entry → Option Entry → Bool
is_stale entry none = false
is_stale entry (some found) = ltb entry.fence found.fence

-- `arm`'s tests of the record of the entity.
unfoldable pub check_producer : Entry → Option Record → Outcome (Unit {0})
check_producer entry none = err runtime_error
check_producer entry (some r) = do
  throw_if (not (r.version == entry.base_version)) runtime_error
  current ← decode_entity_record_view r.value
  throw_if (not (current.fence == entry.fence)) runtime_error

module _ (storage : StorageContract) where
  open storage use {State, get, compare_exchange}

  unfoldable pub read : ℕ → State → Outcome Bucket
  unfolding bucket_of
  read index s = do key ← storage_key index; bucket_of (get key s)

  unfoldable pub write : ℕ → Bucket → State → Outcome (Bool × State)
  write index bucket s = do
    out ← encode_bucket index bucket.entries
    key ← storage_key index
    compare_exchange key bucket.version out s

  -- One pass of the loop of `arm`, where nobody else works on the storage meanwhile.
  unfoldable pub arm_once : Entry → State → Outcome (Bool × State)
  unfolding read write check_producer is_stale
  arm_once entry s = do
    id ← from_text entry.id
    check_producer entry (get (entity_record_key id) s)
    bucket ← read (shard entry.id) s
    let key = identity entry.type entry.id
    throw_if (is_stale entry (find key bucket.entries)) runtime_error
    write (shard entry.id) (record bucket { entries = insert_or_assign key entry bucket.entries }) s

  unfoldable pub arm_loop : ℕ → Entry → State → Outcome State
  unfolding arm_once
  arm_loop zero entry s = err runtime_error
  arm_loop (suc attempts) entry s = do
    armed ← arm_once entry s
    let rest = arm_loop attempts entry armed.1
    if armed.0 then ok armed.1 else rest

  unfoldable pub arm : Entry → State → Outcome State
  unfolding arm_loop
  arm entry s = do throw_if (bad_entry entry) invalid_argument; arm_loop 8 entry s

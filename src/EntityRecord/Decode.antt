-- ===== src/EntityRecord/Decode.antt =====
-- The readers of include/fsnet/entity_record.hpp.
use fsnet.Base.{
  not, ◌||◌, ltb, leb, ◌==◌, length, some, Bytes, codes, Outcome, err, runtime_error, if◌then◌else◌,
  starts_with, drop,
}
use fsnet.Base.Int.{pos, int64_max}
use fsnet.EntityRecord.{EntityRecordView, EntityMetadata, valid_entity_metadata, bad_placement}
use fsnet.Wire.{
  Reader, ◌>>=◌, ◌>>◌, throw_if, pure, get_blob, get_integer, get_flag, get_byte, take_text,
  take_rest, value_of,
}
use Prim.Native.Nat.{bit_and}

unfoldable pub get_header : Reader EntityRecordView
get_header = do
  owner ← get_blob
  expires ← get_integer
  fence ← get_integer
  throw_if (ltb 256 (length owner) || ltb int64_max expires || leb int64_max fence) runtime_error
  initialized ← get_flag runtime_error
  placement ← get_blob
  transfer_id ← get_integer
  throw_if (bad_placement placement transfer_id) runtime_error
  type ← get_blob
  connection ← get_blob
  flags ← get_byte runtime_error
  throw_if (ltb 3 flags) runtime_error
  initial ← get_blob
  digest ← take_text runtime_error 32
  revision ← get_integer
  let m : EntityMetadata = record {
    type = type;
    owner_connection = connection;
    creation_digest = digest;
    rebuildable = not (bit_and flags 1 == 0);
    destroyed = not (bit_and flags 2 == 0);
    initial_state = initial;
    owner_revision = revision;
  }
  throw_if (not (valid_entity_metadata m)) runtime_error
  snapshot ← take_rest
  pure (record {
    owner = owner;
    expires_ms = pos expires;
    fence = fence;
    snapshot = snapshot;
    initialized = initialized;
    placement = placement;
    transfer_id = transfer_id;
    metadata = some m;
  })

-- `entity_record_detail::header`
unfoldable pub header : Bytes → Outcome EntityRecordView
unfolding get_header
header input =
    if not (starts_with input (codes "FER5"))
    then err runtime_error
    else value_of (get_header (drop 4 input))

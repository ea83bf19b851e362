-- ===== src/EntityRecord/Encode.antt =====
-- `encode_entity_record` of include/fsnet/entity_record.hpp.
use fsnet.Base.{
  ℕ, Bool, ◌||◌, [], ◌∷◌, ◌++◌, ltb, leb, length, Option, none, some, Bytes, codes, Outcome, ok,
  err, invalid_argument, if◌then◌else◌,
}
use fsnet.Base.Errors.{◌>>=◌, ◌>>◌, throw_if}
use fsnet.Base.Int.{is_negative, to_u64, int64_max}
use fsnet.EntityRecord.{EntityRecord, EntityMetadata, valid_entity_metadata, bad_placement}
use fsnet.Snapshot.Encode.{encode_snapshot}
use fsnet.Wire.{put_blob, put_integer, flag}
use Prim.Native.Nat.{bit_or}

-- `!record.metadata || !valid_entity_metadata(*record.metadata)`
abbrev pub required : Option EntityMetadata → Outcome EntityMetadata
required none = err invalid_argument
required (some m) = if valid_entity_metadata m then ok m else err invalid_argument

abbrev pub metadata_flags : Bool → Bool → ℕ
metadata_flags rebuildable destroyed =
    bit_or (if rebuildable then 1 else 0) (if destroyed then 2 else 0)

unfoldable pub encode_entity_record : EntityRecord → Outcome Bytes
encode_entity_record r = do
  throw_if (ltb 256 (length r.owner) || is_negative r.expires_ms || leb int64_max r.fence)
      invalid_argument
  throw_if (bad_placement r.placement r.transfer_id) invalid_argument
  m ← required r.metadata
  owner ← put_blob r.owner
  placement ← put_blob r.placement
  type ← put_blob m.type
  connection ← put_blob m.owner_connection
  initial ← put_blob m.initial_state
  snapshot ← encode_snapshot r.snapshot
  ok (
      codes "FER5"
      ++ (owner
          ++ (put_integer (to_u64 r.expires_ms)
              ++ (put_integer r.fence
                  ++ ((flag r.initialized ∷ [])
                      ++ (placement
                          ++ (put_integer r.transfer_id
                              ++ (type
                                  ++ (connection
                                      ++ ((metadata_flags m.rebuildable m.destroyed ∷ [])
                                          ++ (initial
                                              ++ (m.creation_digest
                                                  ++ (put_integer m.owner_revision
                                                      ++ snapshot)))))))))))))

-- ===== src/EntityRecord/Fields.antt =====
-- The header of a record is read back, field by field.
use fsnet.Base.{
  ap, [], ◌∷◌, ◌++◌, inr, inl, ◌<◌, ◌≤◌, ◌^◌, ◌≡◌, refl, Bool, true, false, not, ◌||◌, arith, ltb,
  leb, ◌==◌, length, Bytes, ok, Option, none, some, Bool-cases,
}
use fsnet.Base.Errors.{runtime_error}
use fsnet.Base.Int.{pos, to_u64, is_negative, int64_max, IsInt64}
use fsnet.Base.Tests.{le→ltb_false, ==_iff, and_true}
use fsnet.EntityRecord.{
  bad_placement, EntityRecord, EntityRecordView, EntityMetadata, valid_entity_metadata,
}
use fsnet.EntityRecord.Decode.{get_header}
use fsnet.EntityRecord.Encode.{required, metadata_flags}
use fsnet.Snapshot.RoundTrip.{DeliveryFits, TimersFit}
use fsnet.Wire.{get_byte, get_flag, get_integer, get_blob, flag, put_integer, put_blob, take_text}
use fsnet.Wire.Reads.{
  Reads-byte, Reads-flag, ReadsAll-guard, Reads-integer, Reads-put_blob, ReadsAll-bind, ReadsAll,
  Reads-text, Reads,
}
use Prim.Native.Nat.{bit_and}

-- Numbers that are those of 64-bit words, and the conditions on the snapshot.
pub record RecordFits (r : EntityRecord) (m : EntityMetadata) : Type 0 where
  pub expires : IsInt64 r.expires_ms
  pub transfer : r.transfer_id < 2 ^ 64
  pub revision : m.owner_revision < 2 ^ 64
  pub delivery : DeliveryFits r.snapshot.delivery
  pub timers : TimersFit r.snapshot.timers

pub Reads-digest :
    (digest : Bytes) → length digest ≡ 32 → Reads (take_text runtime_error 32) digest digest
Reads-digest digest size = rw size at (Reads-text runtime_error digest)

pub required_inv :
    (o : Option EntityMetadata) (m n : EntityMetadata)
    → o ≡ some m
    → required o ≡ ok n
    → (n ≡ m) × (valid_entity_metadata m ≡ true)
required_inv none m n e h = cc
required_inv (some k) m n e h = elim (Bool-cases (valid_entity_metadata k)) [
  | inl good ↦ (cc (rw good at h), cc)
  | inr bad ↦ cc (rw bad at h)
]

pub metadata_bits :
    (rebuildable destroyed : Bool)
    → (metadata_flags rebuildable destroyed ≤ 3)
      × (not (bit_and (metadata_flags rebuildable destroyed) 1 == 0) ≡ rebuildable)
      × (not (bit_and (metadata_flags rebuildable destroyed) 2 == 0) ≡ destroyed)
metadata_bits true true = (omega arith, refl, refl)
metadata_bits true false = (omega arith, refl, refl)
metadata_bits false true = (omega arith, refl, refl)
metadata_bits false false = (omega arith, refl, refl)

pub digest_size :
    (m : EntityMetadata) → valid_entity_metadata m ≡ true → length m.creation_digest ≡ 32
unfolding valid_entity_metadata
digest_size m h =
    (==_iff (length m.creation_digest) 32).0 (and_true _ _ (and_true _ _ (and_true _ _ h).0).0).1

pub record Checked (r : EntityRecord) : Type 0 where
  pub expires : pos (to_u64 r.expires_ms) ≡ r.expires_ms
  pub expires_max : to_u64 r.expires_ms ≤ int64_max
  pub fence_max : r.fence < int64_max
  pub header :
      (ltb 256 (length r.owner) || ltb int64_max (to_u64 r.expires_ms) || leb int64_max r.fence)
      ≡ false

pub Checked-numbers :
    (r : EntityRecord)
    → IsInt64 r.expires_ms
    → (ltb 256 (length r.owner) || is_negative r.expires_ms || leb int64_max r.fence) ≡ false
    → Checked r
Checked-numbers r i h = record {
  expires = ground arith;
  expires_max = ground arith;
  fence_max = ground arith;
  header = ground arith;
}

unfoldable pub view_of : EntityRecord → EntityMetadata → Bytes → EntityRecordView
view_of r m snapshot = record {
  owner = r.owner;
  expires_ms = r.expires_ms;
  fence = r.fence;
  snapshot = snapshot;
  initialized = r.initialized;
  placement = r.placement;
  transfer_id = r.transfer_id;
  metadata = some m;
}

pub ReadsAll-header :
    (r : EntityRecord) (m : EntityMetadata)
    (owner placement type connection initial snapshot : Bytes)
    → RecordFits r m
    → Checked r
    → bad_placement r.placement r.transfer_id ≡ false
    → valid_entity_metadata m ≡ true
    → put_blob r.owner ≡ ok owner
    → put_blob r.placement ≡ ok placement
    → put_blob m.type ≡ ok type
    → put_blob m.owner_connection ≡ ok connection
    → put_blob m.initial_state ≡ ok initial
    → ReadsAll get_header
        (owner
          ++ (put_integer (to_u64 r.expires_ms)
              ++ (put_integer r.fence
                  ++ ((flag r.initialized ∷ [])
                      ++ (placement
                          ++ (put_integer r.transfer_id
                              ++ (type
                                  ++ (connection
                                      ++ ((metadata_flags m.rebuildable m.destroyed ∷ [])
                                          ++ (initial
                                              ++ (m.creation_digest
                                                  ++ (put_integer m.owner_revision
                                                      ++ snapshot))))))))))))
        (view_of r m snapshot)
unfolding get_header view_of
ReadsAll-header r m owner placement type connection initial snapshot fits c placed valid e1 e2 e3 e4
      e5 =
    let (three, rebuildable, destroyed) = metadata_bits m.rebuildable m.destroyed in
    ReadsAll-bind get_blob _ owner _ r.owner _ (Reads-put_blob _ _ e1) (
      ReadsAll-bind get_integer _ _ _ (to_u64 r.expires_ms) _
        (Reads-integer _ (omega (arith, c.expires_max)))
        (ReadsAll-bind get_integer _ _ _ r.fence _ (Reads-integer _ (omega (arith, c.fence_max))) (
          ReadsAll-guard _ runtime_error _ _ _ c.header (
            ReadsAll-bind (get_flag runtime_error) _ _ _ r.initialized _
              (Reads-flag runtime_error r.initialized)
              (ReadsAll-bind get_blob _ placement _ r.placement _ (Reads-put_blob _ _ e2) (
                ReadsAll-bind get_integer _ _ _ r.transfer_id _ (Reads-integer _ fits.transfer) (
                  ReadsAll-guard _ runtime_error _ _ _ placed (
                    ReadsAll-bind get_blob _ type _ m.type _ (Reads-put_blob _ _ e3) (
                      ReadsAll-bind get_blob _ connection _ m.owner_connection _
                        (Reads-put_blob _ _ e4)
                        (ReadsAll-bind (get_byte runtime_error) _ _ _
                          (metadata_flags m.rebuildable m.destroyed) _ (Reads-byte runtime_error _)
                          (ReadsAll-guard _ runtime_error _ _ _ (le→ltb_false 3 _ three) (
                            ReadsAll-bind get_blob _ initial _ m.initial_state _
                              (Reads-put_blob _ _ e5)
                              (ReadsAll-bind (take_text runtime_error 32) _ m.creation_digest _
                                m.creation_digest _
                                (Reads-digest m.creation_digest (digest_size m valid))
                                (ReadsAll-bind get_integer _ _ _ m.owner_revision _
                                  (Reads-integer _ fits.revision)
                                  (rw (rebuildable, destroyed, c.expires)
                                    (ReadsAll-guard _ runtime_error _ _ _ (ap not valid)
                                      (record { at = refl })))))))))))))))))

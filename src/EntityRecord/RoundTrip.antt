-- ===== src/EntityRecord/RoundTrip.antt =====
-- `decode_entity_record` reads back what `encode_entity_record` wrote.
use fsnet.Base.{
  Outcome, [], ◌∷◌, ◌++◌, throw_if-eq-ok, ◌≡◌, refl, true, false, ◌||◌, ltb, leb, length, Bytes, ok,
  some,
}
use fsnet.Base.Errors.{ok-subst, ◌>>=◌, >>=-eq-ok}
use fsnet.Base.Int.{to_u64, is_negative, int64_max}
use fsnet.Base.Texts.{codes, starts_with}
use fsnet.EntityRecord.{bad_placement, EntityRecord, EntityMetadata, valid_entity_metadata}
use fsnet.EntityRecord.Decode.{header}
use fsnet.EntityRecord.Encode.{encode_entity_record, required, metadata_flags}
use fsnet.EntityRecord.Fields.{RecordFits, required_inv, Checked-numbers, ReadsAll-header, view_of}
use fsnet.EntityRecord.View.{decode_entity_record}
use fsnet.Snapshot.Encode.{encode_snapshot}
use fsnet.Snapshot.RoundTrip.{decode-encode_snapshot}
use fsnet.Wire.{flag, put_integer, put_blob}

-- `encode_entity_record` after its checks
abbrev write_fields : EntityRecord → EntityMetadata → Outcome Bytes
write_fields r m = do
  owner ← put_blob r.owner
  placement ← put_blob r.placement
  type ← put_blob m.type
  connection ← put_blob m.owner_connection
  initial ← put_blob m.initial_state
  snapshot ← encode_snapshot r.snapshot
  ok (
      codes "FER5"
      ++ (owner
          ++ (put_integer (to_u64 r.expires_ms)
              ++ (put_integer r.fence
                  ++ ((flag r.initialized ∷ [])
                      ++ (placement
                          ++ (put_integer r.transfer_id
                              ++ (type
                                  ++ (connection
                                      ++ ((metadata_flags m.rebuildable m.destroyed ∷ [])
                                          ++ (initial
                                              ++ (m.creation_digest
                                                  ++ (put_integer m.owner_revision
                                                      ++ snapshot)))))))))))))

written :
    (r : EntityRecord) (m : EntityMetadata) (out : Bytes)
    → r.metadata ≡ some m
    → RecordFits r m
    → (ltb 256 (length r.owner) || is_negative r.expires_ms || leb int64_max r.fence) ≡ false
    → bad_placement r.placement r.transfer_id ≡ false
    → valid_entity_metadata m ≡ true
    → write_fields r m ≡ ok out
    → decode_entity_record out ≡ ok r
unfolding decode_entity_record header starts_with view_of
written r m out described fits numbers placed valid h =
    let (owner, e1, h1) = >>=-eq-ok (put_blob r.owner) _ h in
    let (placement, e2, h2) = >>=-eq-ok (put_blob r.placement) _ h1 in
    let (type, e3, h3) = >>=-eq-ok (put_blob m.type) _ h2 in
    let (connection, e4, h4) = >>=-eq-ok (put_blob m.owner_connection) _ h3 in
    let (initial, e5, h5) = >>=-eq-ok (put_blob m.initial_state) _ h4 in
    let (snapshot, e6, same) = >>=-eq-ok (encode_snapshot r.snapshot) _ h5 in
    ok-subst (λ text. decode_entity_record text ≡ ok r) same
      (rw
        (
          (ReadsAll-header r m owner placement type connection initial snapshot fits
              (Checked-numbers r fits.expires numbers) placed valid e1 e2 e3 e4 e5).at,
          decode-encode_snapshot r.snapshot snapshot fits.delivery fits.timers e6,
          ← described,
        )
        refl)

-- A record that was encoded is decoded to itself: its numbers are those of 64-bit words, and the
-- maps of its snapshot are in key order.
pub decode-encode_entity_record :
    (r : EntityRecord) (m : EntityMetadata) (out : Bytes)
    → r.metadata ≡ some m
    → RecordFits r m
    → encode_entity_record r ≡ ok out
    → decode_entity_record out ≡ ok r
unfolding encode_entity_record
decode-encode_entity_record r m out described fits h =
    let (numbers, h1) =
      throw_if-eq-ok (ltb 256 (length r.owner) || is_negative r.expires_ms || leb int64_max r.fence)
        _ _ h in
    let (placed, h2) = throw_if-eq-ok (bad_placement r.placement r.transfer_id) _ _ h1 in
    let (n, e3, h3) = >>=-eq-ok (required r.metadata) _ h2 in
    let (named, valid) = required_inv r.metadata m n described e3 in
    written r m out described fits numbers placed valid (rw named at h3)

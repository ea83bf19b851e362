-- ===== src/EntityRecord/View.antt =====
-- The two decoders of a record, on its header.
use fsnet.Base.{refl, Bytes, Outcome, ok, ◌≡◌}
use fsnet.Base.Errors.{ok-subst, ◌>>=◌, ◌>>◌, >>=-eq-ok}
use fsnet.EntityRecord.{EntityRecord, EntityRecordView}
use fsnet.EntityRecord.Decode.{header}
use fsnet.Snapshot.{EntitySnapshot}
use fsnet.Snapshot.Decode.{decode_snapshot, validate_snapshot_framing}
use fsnet.Snapshot.Framing.{readers_agree}

unfoldable pub decode_entity_record_view : Bytes → Outcome EntityRecordView
decode_entity_record_view input = do
  view ← header input
  validate_snapshot_framing view.snapshot
  ok view

-- The record of a view and its decoded snapshot.
abbrev pub record_of : EntityRecordView → EntitySnapshot → EntityRecord
record_of view snapshot = record {
  owner = view.owner;
  expires_ms = view.expires_ms;
  fence = view.fence;
  snapshot = snapshot;
  initialized = view.initialized;
  placement = view.placement;
  transfer_id = view.transfer_id;
  metadata = view.metadata;
}

unfoldable pub decode_entity_record : Bytes → Outcome EntityRecord
decode_entity_record input = do
  view ← header input
  snapshot ← decode_snapshot view.snapshot
  ok (record_of view snapshot)

-- The view of a record: the same fields, and bytes that decode to its snapshot.
abbrev pub Viewed : Bytes → EntityRecord → Type 0
Viewed input r =
    (view : EntityRecordView) × (decode_entity_record_view input ≡ ok view)
    × (decode_snapshot view.snapshot ≡ ok r.snapshot)
    × (record_of view r.snapshot ≡ r)

-- Whatever bytes `decode_entity_record` accepts, `decode_entity_record_view` accepts, with the
-- same header and with a view of the bytes of the same snapshot.
pub decode_entity_record-view :
    (input : Bytes) (r : EntityRecord) → decode_entity_record input ≡ ok r → Viewed input r
unfolding decode_entity_record decode_entity_record_view
decode_entity_record-view input r h =
    let (view, e1, h1) = >>=-eq-ok (header input) _ h in
    let (snapshot, e2, same) = >>=-eq-ok (decode_snapshot view.snapshot) _ h1 in
    ok-subst (λ r. Viewed input r) same
      (view, rw (e1, (readers_agree view.snapshot snapshot e2).0) refl, e2, refl)

-- ===== src/EntityCatalog/Claims.antt =====
-- The claims and the first records of src/entity_catalog.cpp: what is written passes the checks of a
-- retry, and what a claim says.
use fsnet.Base.{
  sym, ◌||◌, length, not, none, false, refl, [], ◌∙◌, if◌then◌else◌, ◌==◌, ap, arith, ◌++◌, some,
  Option, ◌≡◌, ℕ,
}
use fsnet.Base.Errors.{ok-injective, throw_if-eq-ok, entity_creation_conflict, err, >>=-eq-ok, ok}
use fsnet.Base.Lists.{drop}
use fsnet.Base.Tests.{ltb}
use fsnet.Base.Texts.{
  is_empty, text_eq-false, text_eq→eq, text_eq, starts_with, text_eq_refl, codes, Bytes,
}
use fsnet.EntityCatalog.{operation_key, rebuildable, EntityCreation, initial_record}
use fsnet.EntityCatalog.Create.{read_claim, check_stored}
use fsnet.EntityId.{str, entity_id}
use fsnet.EntityRecord.{EntityMetadata, EntityRecord, entity_record_key}
use fsnet.EntityRecord.Encode.{encode_entity_record}
use fsnet.EntityRecord.Fields.{RecordFits}
use fsnet.EntityRecord.RoundTrip.{decode-encode_entity_record}
use fsnet.EntityRecord.View.{decode_entity_record-view}
use fsnet.Storage.{Record}
use fsnet.Wire.{put_blob, get_integer}

abbrev metadata_of : EntityCreation → Bytes → EntityMetadata
metadata_of c fingerprint = record {
  type = c.type;
  owner_connection = c.owner_connection;
  creation_digest = fingerprint;
  rebuildable = c.persistence == rebuildable;
  destroyed = false;
  initial_state = if c.persistence == rebuildable then c.state else [];
  owner_revision = 1;
}

-- What `create` has written passes the checks of a retry.
pub check_initial :
    (c : EntityCreation) (fingerprint out : Bytes) (version : ℕ)
    → encode_entity_record (initial_record c fingerprint) ≡ ok out
    → check_stored c fingerprint (some (record { value = out; version = version })) ≡ ok tt
unfolding check_stored initial_record
check_initial c fingerprint out version h =
    let r = initial_record c fingerprint in
    let fits : RecordFits r (metadata_of c fingerprint) = record {
      expires = omega arith;
      transfer = omega arith;
      revision = omega arith;
      delivery = record { epoch = omega arith; sent = (tt, tt); inbox = (tt, tt); outbox = tt };
      timers = record { sequence = omega arith; sorted = tt; times = tt };
    } in
    let (view, viewed, _, same) =
      decode_entity_record-view out r
        (decode-encode_entity_record r (metadata_of c fingerprint) out refl fits h) in
    rw
      (
        viewed,
        ap (λ (q : EntityRecord). q.metadata) same,
        text_eq_refl c.type,
        text_eq_refl fingerprint,
      )
      refl

-- What a claim says does not depend on its version.
pub read_claim-version :
    (fingerprint text : Bytes) (version : ℕ)
    → read_claim fingerprint (some (record { value = text; version = version }))
      ≡ read_claim fingerprint (some (record { value = text; version = 0 }))
unfolding read_claim
read_claim-version fingerprint text version = refl

pub read_claim-other :
    (fingerprint other : Bytes) (claim : Option Record) (id : ℕ)
    → read_claim fingerprint claim ≡ ok id
    → ¬ (fingerprint ≡ other)
    → read_claim other claim ≡ err entity_creation_conflict
unfolding read_claim
read_claim-other fingerprint other none id h differ = cc
read_claim-other fingerprint other (some r) id h differ =
    let (proper, h1) =
      throw_if-eq-ok (not (length r.value == 44) || not (starts_with r.value (codes "FEC1"))) _ _
        h in
    let ((word, rest), e1, h2) = >>=-eq-ok (get_integer (drop 4 r.value)) _ h1 in
    let (i, e2, h3) = >>=-eq-ok (entity_id word) _ h2 in
    let (same, _) = throw_if-eq-ok (not (text_eq rest fingerprint)) _ _ h3 in
    let eq = text_eq→eq rest fingerprint (ground (arith, same)) in
    rw (proper, e1, e2, text_eq-false rest other (λ e. differ (sym eq ∙ e))) refl

-- The keys of claims and those of entities are different.
pub operation_key-differs :
    (sha256 : Bytes → Bytes) (scope key operation : Bytes) (id : ℕ)
    → operation_key sha256 scope key ≡ ok operation
    → ¬ (entity_record_key id ≡ operation)
unfolding operation_key entity_record_key
operation_key-differs sha256 scope key operation id h same =
    let (_, h1) =
      throw_if-eq-ok
        (is_empty scope || ltb 256 (length scope) || is_empty key || ltb 128 (length key)) _ _ h in
    let (first, _, h2) = >>=-eq-ok (put_blob scope) _ h1 in
    let (second, _, h3) = >>=-eq-ok (put_blob key) _ h2 in
    let both : codes "fsnet/creation/v1/" ++ sha256 (first ++ second)
        ≡ codes "fsnet/entity/v2/" ++ str id =
      ok-injective h3 ∙ sym same in
    ground (arith, both)

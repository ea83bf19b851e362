-- ===== src/EntityCatalog/Create.antt =====
-- create and find of src/entity_catalog.cpp, over a storage that nobody else works on meanwhile.
use fsnet.Base.{
  ◌||◌, ◌==◌, length, true, not, if◌then◌else◌, ◌++◌, Bool, runtime_error, Option, ℕ, none, some,
}
use fsnet.Base.Errors.{entity_creation_conflict, ok, err, Outcome, ◌>>=◌, ◌>>◌, throw_if}
use fsnet.Base.Lists.{drop}
use fsnet.Base.Tests.{is_some}
use fsnet.Base.Texts.{starts_with, text_eq, codes, Bytes}
use fsnet.Allocator.{Allocator, allocate}
use fsnet.EntityCatalog.{
  initial_record, creation_digest, operation_key, EntityCreation, EntityDescription,
}
use fsnet.EntityId.{entity_id}
use fsnet.EntityRecord.{entity_record_key, EntityMetadata}
use fsnet.EntityRecord.Encode.{encode_entity_record}
use fsnet.EntityRecord.View.{decode_entity_record_view, decode_entity_record}
use fsnet.Storage.{Record}
use fsnet.Storage.Contract.{StorageContract}
use fsnet.Wire.{get_integer, put_integer}

-- The text of a claim.
abbrev pub claim_text : ℕ → Bytes → Bytes
claim_text candidate fingerprint = codes "FEC1" ++ (put_integer candidate ++ fingerprint)

-- The identity of the claim that was found, if it is a claim of this creation.
unfoldable pub read_claim : Bytes → Option Record → Outcome ℕ
read_claim fingerprint none = err runtime_error
read_claim fingerprint (some claim) = do
  throw_if (not (length claim.value == 44) || not (starts_with claim.value (codes "FEC1")))
      runtime_error
  (word, rest) ← get_integer (drop 4 claim.value)
  id ← entity_id word
  throw_if (not (text_eq rest fingerprint)) entity_creation_conflict
  ok id

-- Whether the metadata of a record are not those of the creation.
abbrev pub is_collision : EntityCreation → Bytes → Option EntityMetadata → Bool
is_collision c fingerprint none = true
is_collision c fingerprint (some m) =
    not (text_eq m.type c.type) || not (text_eq m.creation_digest fingerprint)

-- The checks of the record of the entity that is there already.
unfoldable pub check_stored : EntityCreation → Bytes → Option Record → Outcome (Unit {0})
check_stored c fingerprint none = err runtime_error
check_stored c fingerprint (some stored) = do
  view ← decode_entity_record_view stored.value
  throw_if (is_collision c fingerprint view.metadata) runtime_error

module _ (storage : StorageContract) where
  open storage use {State, get, compare_exchange}

  unfoldable pub find_claim :
      Option Record
      → Bytes
      → Bytes
      → Allocator
      → State
      → Outcome (Option Record × Allocator × State)
  find_claim (some claim) operation fingerprint a s = ok (some claim, a, s)
  find_claim none operation fingerprint a s = do
    (candidate, b, t) ← allocate storage a s
    let value = claim_text candidate fingerprint
    (claimed, u) ← compare_exchange operation 0 value t
    ok (if claimed then some (record { value = value; version = 0 }) else get operation u, b, u)

  unfoldable pub write_initial : Option Record → ℕ → EntityCreation → Bytes → State → Outcome State
  unfolding check_stored
  write_initial (some stored) id c fingerprint s = do check_stored c fingerprint (some stored); ok s
  write_initial none id c fingerprint s = do
    out ← encode_entity_record (initial_record c fingerprint)
    (created, t) ← compare_exchange (entity_record_key id) 0 out s
    if created then ok t else (check_stored c fingerprint (get (entity_record_key id) t) >> ok t)

  -- `create` after the keys: the operation's and the fingerprint.
  unfoldable pub create_claimed :
      Bytes → Bytes → EntityCreation → Allocator → State → Outcome (ℕ × Allocator × State)
  unfolding find_claim read_claim write_initial
  create_claimed operation fingerprint c a s = do
    (claim, b, t) ← find_claim (get operation s) operation fingerprint a s
    id ← read_claim fingerprint claim
    u ← write_initial (get (entity_record_key id) t) id c fingerprint t
    ok (id, b, u)

  module _ (sha256 : Bytes → Bytes) where
    unfoldable pub create :
        Bytes → Bytes → EntityCreation → Allocator → State → Outcome (ℕ × Allocator × State)
    unfolding create_claimed
    create scope key c a s = do
      operation ← operation_key sha256 scope key
      fingerprint ← creation_digest sha256 c
      create_claimed operation fingerprint c a s

  unfoldable pub find : ℕ → State → Outcome (Option EntityDescription)
  find id s = elim (get (entity_record_key id) s) [
    | none ↦ ok none
    | some stored ↦ (do
      r ← decode_entity_record stored.value
      throw_if (not (is_some r.metadata)) runtime_error
      ok (some (record { id = id; entity = r; version = stored.version })))
  ]

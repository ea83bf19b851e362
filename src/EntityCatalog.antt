-- ===== src/EntityCatalog.antt =====
-- EntityCatalog of src/entity_catalog.cpp with include/fsnet/entity_catalog.hpp: the creation of an
-- entity under a key, and the look-up of its record. SHA-256 is a parameter.
pub mod Create
pub mod Claims
pub mod Stored
pub mod Retry
mod Tests
use fsnet.Base.{
  if◌then◌else◌, ◌*◌, ◌==◌, ◌&&◌, some, ◌∷◌, not, false, ◌++◌, length, ◌||◌, Bool, [], ℕ, ◌+◌,
}
use fsnet.Base.Errors.{ok, invalid_argument, Outcome, ◌>>=◌, ◌>>◌, throw_if}
use fsnet.Base.Int.{pos}
use fsnet.Base.Tests.{ltb}
use fsnet.Base.Texts.{codes, is_empty, Bytes}
use fsnet.EntityRecord.{valid_entity_node, valid_connection_key, EntityRecord}
use fsnet.Message.{has_separator}
use fsnet.Snapshot.{no_timers, no_delivery}
use fsnet.Wire.{put_blob}

-- `EntityPersistence`: 0 is durable, 1 is rebuildable; any unsigned char can stand in the field.
abbrev pub durable : ℕ
durable = 0

abbrev pub rebuildable : ℕ
rebuildable = 1

pub record EntityCreation : Type 0 where
  pub type : Bytes
  pub owner_connection : Bytes
  pub state : Bytes
  pub target_node : Bytes
  pub persistence : ℕ

pub record EntityDescription : Type 0 where
  pub id : ℕ
  pub entity : EntityRecord
  pub version : ℕ

unfoldable pub bad_creation : EntityCreation → Bool
unfolding has_separator valid_connection_key valid_entity_node
bad_creation c =
    is_empty c.type
    || ltb 127 (length c.type)
    || has_separator c.type
    || (not (is_empty c.owner_connection) && not (valid_connection_key c.owner_connection))
    || ltb (8 * 1024 * 1024) (length c.state)
    || (not (is_empty c.target_node) && not (valid_entity_node c.target_node))
    || (not (c.persistence == durable) && not (c.persistence == rebuildable))

module _ (sha256 : Bytes → Bytes) where
  unfoldable pub operation_key : Bytes → Bytes → Outcome Bytes
  operation_key scope key = do
    throw_if (is_empty scope || ltb 256 (length scope) || is_empty key || ltb 128 (length key))
        invalid_argument
    first ← put_blob scope
    second ← put_blob key
    ok (codes "fsnet/creation/v1/" ++ sha256 (first ++ second))

  unfoldable pub creation_digest : EntityCreation → Outcome Bytes
  creation_digest c = do
    throw_if (bad_creation c) invalid_argument
    type ← put_blob c.type
    connection ← put_blob c.owner_connection
    target ← put_blob c.target_node
    state ← put_blob c.state
    ok (sha256 (codes "FEC1" ++ (type ++ (connection ++ (target ++ (c.persistence ∷ state))))))

-- The record that `create` writes for a new entity.
unfoldable pub initial_record : EntityCreation → Bytes → EntityRecord
initial_record c fingerprint = record {
  owner = [];
  expires_ms = pos 0;
  fence = 0;
  snapshot = record { state = c.state; receipts = []; delivery = no_delivery; timers = no_timers };
  initialized = false;
  placement = c.target_node;
  transfer_id = 0;
  metadata = some (record {
    type = c.type;
    owner_connection = c.owner_connection;
    creation_digest = fingerprint;
    rebuildable = c.persistence == rebuildable;
    destroyed = false;
    initial_state = if c.persistence == rebuildable then c.state else [];
    owner_revision = 1;
  });
}

-- ===== src/EntityRecord.antt =====
-- include/fsnet/entity_record.hpp with the keys of include/fsnet/connection.hpp: the atomic record
-- of an entity, its metadata and the checks of its fields.
pub mod Encode
pub mod Decode
pub mod View
pub mod Fields
pub mod RoundTrip
pub mod Tests
use fsnet.Base.{
  ℕ, ◌+◌, ◌-◌, ◌*◌, ◌^◌, Bool, true, false, not, ◌&&◌, ◌||◌, [], ◌∷◌, ◌++◌, ltb, leb, ◌==◌, Option,
  none, some, length, is_empty, Bytes, codes, starts_with, drop, take, text_eq, contains_byte,
  if◌then◌else◌,
}
use fsnet.Base.Int.{ℤ}
use fsnet.EntityId.{all_hex, str}
use fsnet.Message.{has_separator, front_is}
use fsnet.Snapshot.{EntitySnapshot}

-- std::from_chars on a std::uint64_t, where all of the text must be digits.
unfoldable pub decimal_value : Bytes → ℕ → Option ℕ
decimal_value [] value = some value
decimal_value (c ∷ text) value =
    elim (leb b'0' c && leb c b'9' && leb (value * 10 + (c - b'0')) (2 ^ 64 - 1)) [
      | false ↦ none
      | true ↦ decimal_value text (value * 10 + (c - b'0'))
    ]

abbrev pub is_nonzero : Option ℕ → Bool
is_nonzero none = false
is_nonzero (some n) = not (n == 0)

unfoldable pub valid_connection_key : Bytes → Bool
unfolding all_hex decimal_value
valid_connection_key key =
    let rest = drop 11 key in
    let generation = drop 33 rest in
    starts_with key (codes "connection/")
    && leb 45 (length key)
    && leb (length key) 64
    && all_hex (take 32 rest)
    && front_is b'/' (drop 32 rest)
    && not (is_empty generation)
    && not (front_is b'0' generation)
    && is_nonzero (decimal_value generation 0)

-- Metadata of an entity, with owned texts or with views: one type of the model.
pub record EntityMetadata : Type 0 where
  pub type : Bytes
  pub owner_connection : Bytes
  pub creation_digest : Bytes
  pub rebuildable : Bool
  pub destroyed : Bool
  pub initial_state : Bytes
  pub owner_revision : ℕ

pub record EntityRecord : Type 0 where
  pub owner : Bytes
  pub expires_ms : ℤ
  pub fence : ℕ
  pub snapshot : EntitySnapshot
  pub initialized : Bool
  pub placement : Bytes
  pub transfer_id : ℕ
  pub metadata : Option EntityMetadata

pub record EntityRecordView : Type 0 where
  pub owner : Bytes
  pub expires_ms : ℤ
  pub fence : ℕ
  pub snapshot : Bytes
  pub initialized : Bool
  pub placement : Bytes
  pub transfer_id : ℕ
  pub metadata : Option EntityMetadata

unfoldable pub valid_entity_node : Bytes → Bool
unfolding contains_byte
valid_entity_node node =
    not (is_empty node)
    && leb (length node) 127
    && not (contains_byte b'/' node || contains_byte 0 node)

unfoldable pub entity_node_matches : Bytes → Bytes → Bool
entity_node_matches owner node =
    text_eq owner node
    || (ltb (length node) (length owner)
        && starts_with owner node
        && front_is b'/' (drop (length node) owner))

unfoldable pub entity_record_key : ℕ → Bytes
entity_record_key id = codes "fsnet/entity/v2/" ++ str id

unfoldable pub valid_entity_metadata : EntityMetadata → Bool
unfolding has_separator valid_connection_key
valid_entity_metadata m =
    not (is_empty m.type)
    && leb (length m.type) 127
    && not (has_separator m.type)
    && (is_empty m.owner_connection || valid_connection_key m.owner_connection)
    && not (m.owner_revision == 0)
    && length m.creation_digest == 32
    && leb (length m.initial_state) (8 * 1024 * 1024)
    && (m.rebuildable || is_empty m.initial_state)

-- The check of placement and transfer that the writer and the reader share.
unfoldable pub bad_placement : Bytes → ℕ → Bool
unfolding valid_entity_node
bad_placement placement transfer_id =
    (not (is_empty placement) && not (valid_entity_node placement))
    || (is_empty placement && not (transfer_id == 0))

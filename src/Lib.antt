-- ===== src/Lib.antt =====
-- fsnet, the distributed entity runtime: its identities, frames and records, its
-- versioned storage, its timers and its allocators.
--
-- The program keeps every entity as a record in a versioned key-value store. The components that
-- keep state there (catalog, hosts, timers, deliveries) share it through `get`, `erase`,
-- `compare_exchange` and `transact` alone, so that the order of their atomic steps is all that
-- their interleaving can vary. What goes into the store and over the wire is bytes, written and
-- read by hand-written big-endian codecs.
--
-- - Base: Boolean tests, lists and their length over native numbers, exceptions as values
--   (Base.Errors: one constructor for each exception class), byte texts, std::map as a list in key
--   order (Base.Maps), and std::int64_t (Base.Int).
-- - Wire: the readers and writers that the codecs share (src/attribute_wire.cpp,
--   include/fsnet/entity_snapshot.hpp, include/fsnet/entity_record.hpp). A reader takes the input
--   to a value and the rest of the input, as the code advances its std::string_view. Wire.Reads has
--   a rule for each way to build a reader, by which the round trips are derived.
-- - EntityId: include/fsnet/entity_id.hpp, the text and byte forms of a 64-bit identity.
-- - Message: include/fsnet/entity_message.hpp, the frames of entity calls (FSE3), the envelopes
--   FSE1, FSE2 and FSS1, routes and the names of methods.
-- - Timer: src/entity_timer_state.cpp, how a timer advances (`advance_entity_timer`), the earliest
--   timer, and the records FST1 and FTE1.
-- - EntityKey and ReplicationWire: src/replication_wire.cpp, the keys of entities and the packets FSN1
--   of a subscription, with the remapping of a packet to another subscription.
-- - AsyncDatabase: src/async_database.cpp, the queue of storage operations. Its functions are the
--   critical sections of the two threads; AsyncDatabase.Reachable has the steps in which they
--   interleave, and `stop` and `poll` compose them the way the owning thread does.
-- - TimerIndex: src/entity_timer_index.cpp, the index in 64 shared records of the entities that have
--   a timer, read, written and extended by arm over a storage.
-- - Delivery: src/entity_delivery_state.cpp, the record FDS1 of an entity's deliveries, the envelope
--   FSD1 of one message, its acknowledgement FDA1 and the registry of sources FDR1; SHA-256, which
--   makes the tickets, is a parameter.
-- - Snapshot: include/fsnet/entity_snapshot.hpp, the snapshot of an entity in its three versions,
--   around the records of Delivery and Timer.
-- - EntityRecord: include/fsnet/entity_record.hpp, the record FER5 that the store keeps for an
--   entity, around its snapshot, and the connection keys of include/fsnet/connection.hpp.
-- - Storage: include/fsnet/storage.hpp and the class Memory of src/database.cpp. Storage.Contract
--   is the interface that the clients of a storage take as a parameter, with the in-memory backend
--   as its instance.
-- - Allocator: EntityIdAllocator of src/entity_catalog.cpp. Allocator.World has the steps of any
--   number of allocators on one storage, which can interleave.
-- - EntityCatalog: EntityCatalog of src/entity_catalog.cpp, the creation of an entity under a key and
--   the look-up of its record, over a storage that nobody else works on during the call; SHA-256 is a
--   parameter.
-- - Directory: ServiceDirectory of include/fsnet/directory.hpp, the leases of peers and the choice
--   of one for a key.
-- - Connection: ConnectionRef of include/fsnet/connection.hpp, its key, the test of a key and the two
--   readers of one, and `create` of src/connection.cpp, where the random bytes are a parameter.
-- - Attribute: AttributeValue of include/fsnet/entity_schema.hpp, a variant that holds maps and
--   arrays of itself, with its equality (Attribute.Equality), `encode_value` and `decode_value` of
--   src/attribute_wire.cpp. The templates over the output are functions of an interface with two
--   instances, std::string and SizeOnly.
-- - AttributeUpdate: the records FSA1, FSA2 and FSA3 of src/attribute_wire.cpp, around values and
--   patches.
-- - AttributeDelta: `container_delta`, `diff_fields`, `attribute_delta` and `attribute_write_delta` of
--   src/attribute_wire.cpp. The recursion over a value has the 8 levels that a path may have for its
--   fuel. Arrays and maps follow each other by `==`, to which the two zeros of a double are equal.
-- - EntitySchema: src/entity_schema.cpp, the checks of schemas and values (EntitySchema.Valid,
--   EntitySchema.Definition), the state of EntityAttributes with its operations
--   (EntitySchema.Carrier) and what it shows of itself (EntitySchema.Views).
-- - AttributeReplica: the class of that name of src/attribute_wire.cpp, which applies updates to
--   an image, with the charge of `attribute_image_bytes` of src/entity_schema.cpp. Its client side
--   meets the entity's side in AttributeReplica.Follow; AttributeReplica.Proposal is how the
--   server stages what a client proposes (`stage_attribute_proposal`).
--
-- Bytes are numbers below 256, texts lists of them. An unsigned machine word is a natural number,
-- and where the code's arithmetic may wrap, the wrap-around is written out; a std::int64_t is an
-- integer of Base.Int. The steady clock of the leases is a natural number that never leaves its
-- range, and a commit of attributes stores the values under names that have been looked up before. A
-- mutex has no counterpart: every operation that takes it is one atomic step. Functions that change a
-- reference return its new value. The loops of the code run over containers, digits or a count (the
-- 128 attempts of `allocate`), and are recursion on these: no
-- fuel is needed. `decode_value` recurses on 9 - depth, which the code's limit of 8 on the depth
-- bounds; a double is the bits of its IEEE representation; a callback of a caller is what it
-- answers.
--
-- Not modelled: the SQLite, PostgreSQL and file backends of the storage, sockets, TLS, ICE and the
-- Lua VM, which are calls of other libraries or of the system; std::hash; and the components
-- above the records: the entity host, the timer and delivery
-- services, the subscriptions of attributes, the router, the node, the gateway and the clients.
pub mod Base
pub mod Wire
pub mod EntityId
pub mod Message
pub mod Timer
pub mod Storage
pub mod EntityKey
pub mod Allocator
pub mod Delivery
pub mod Snapshot
pub mod EntityRecord
pub mod Directory
pub mod Connection
pub mod Attribute
pub mod AttributeUpdate
pub mod EntitySchema
pub mod AttributeReplica
pub mod TimerIndex
pub mod EntityCatalog
pub mod ReplicationWire
pub mod AsyncDatabase
pub mod AttributeDelta

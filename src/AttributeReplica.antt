-- ===== src/AttributeReplica.antt =====
-- AttributeReplica of include/fsnet/attribute_wire.hpp and src/attribute_wire.cpp: the attributes of an
-- entity as a client knows them.
pub mod Overlay
pub mod Bytes
pub mod Patch
pub mod Apply
pub mod Stored
pub mod Atomic
pub mod Follow
pub mod Proposal
pub mod Tests
use fsnet.Base.{ℕ, Bool, List, [], ◌∷◌}
use fsnet.Base.Maps.{insert_or_assign}
use fsnet.Attribute.{AttributeStruct}

-- The loop that moves the values of a delta into the image: a new key is inserted, and the value of
-- a key that is there is swapped.
unfoldable pub overlay : AttributeStruct → AttributeStruct → AttributeStruct
overlay values [] = values
overlay values ((name, value) ∷ prepared) = overlay (insert_or_assign name value values) prepared

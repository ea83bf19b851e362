-- ===== src/AttributeUpdate.antt =====
-- AttributePatch and AttributeUpdate of include/fsnet/entity_schema.hpp: the changes of attributes
-- that src/attribute_wire.cpp writes as FSA1, FSA2 and FSA3 records.
pub mod Encode
pub mod Decode
pub mod Paths
pub mod Values
pub mod Kinds
pub mod Patches
pub mod Image
pub mod Body
pub mod Versions
pub mod Written
pub mod RoundTrip
pub mod Size
pub mod Bounds
pub mod Tests
use fsnet.Base.{ℕ, Bool, not, ◌||◌, ◌&&◌, false, List, [], ◌∷◌, Bytes, Option, is_empty}
use fsnet.Attribute.{AttributeValue, AttributeStruct, AttributeArray}

-- A part of a path: a key or an index.
pub data PathPart : Type 0 where
  key_part : Bytes → PathPart
  index_part : ℕ → PathPart

pub record AttributePatch : Type 0 where
  pub property : Bytes
  pub is_map : Bool
  pub key : Bytes
  pub value : Option AttributeValue
  pub position : ℕ
  pub remove : ℕ
  pub insert : AttributeArray
  pub path : List PathPart
  pub replace : Bool

pub record AttributeUpdate : Type 0 where
  pub base : ℕ
  pub revision : ℕ
  pub snapshot : Bool
  pub values : AttributeStruct
  pub patches : List AttributePatch

-- `for(const auto& patch:update.patches) if(patch.replace || !patch.path.empty()) return true;`
unfoldable pub field_paths : List AttributePatch → Bool
field_paths [] = false
field_paths (patch ∷ patches) = (patch.replace || not (is_empty patch.path)) || field_paths patches

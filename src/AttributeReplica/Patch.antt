-- ===== src/AttributeReplica/Patch.antt =====
-- How `AttributeReplica::apply` of src/attribute_wire.cpp applies patches, each to the value that its
-- path leads to.
use fsnet.Base.{
  ℕ, zero, suc, ◌+◌, ◌-◌, not, ◌||◌, ltb, Bytes, List, [], ◌∷◌, ◌++◌, Option, none, some,
  if◌then◌else◌, length, take, drop, is_some,
}
use fsnet.Base.Errors.{
  Outcome, ok, err, ◌>>=◌, ◌>>◌, throw_if, invalid_argument, length_error, out_of_range,
  bad_variant_access,
}
use fsnet.Base.Maps.{find, insert_or_assign, erase}
use fsnet.Attribute.{
  AttributeValue, structure, array, dictionary, entries, elements, to_fields, to_items,
  AttributeStruct, AttributeArray,
}
use fsnet.AttributeUpdate.{PathPart, key_part, index_part, AttributePatch}
use fsnet.EntitySchema.Carrier.{at}

-- `items.at(index)` is edited in place.
unfoldable pub edit_item :
    ℕ → (AttributeValue → Outcome AttributeValue) → AttributeArray → Outcome AttributeArray
edit_item index edit [] = err out_of_range
edit_item zero edit (value ∷ values) = do new ← edit value; ok (new ∷ values)
edit_item (suc index) edit (value ∷ values) = do
  rest ← edit_item index edit values
  ok (value ∷ rest)

-- `entries.at(key)` is edited in place.
unfoldable pub edit_entry :
    Bytes → (AttributeValue → Outcome AttributeValue) → AttributeStruct → Outcome AttributeStruct
unfolding at
edit_entry key edit values = do
  value ← at key values
  new ← edit value
  ok (insert_or_assign key new values)

-- One part of a path, and then the edit of what it leads to.
unfoldable pub edit_part :
    PathPart → (AttributeValue → Outcome AttributeValue) → AttributeValue → Outcome AttributeValue
unfolding edit_item edit_entry
edit_part (key_part key) edit (structure fields) = do
  values ← edit_entry key edit (entries fields)
  ok (structure (to_fields values))
edit_part (key_part key) edit (dictionary fields) = do
  values ← edit_entry key edit (entries fields)
  ok (dictionary (to_fields values))
edit_part (index_part index) edit (array items) = do
  values ← edit_item index edit (elements items)
  ok (array (to_items values))
edit_part part edit value = err bad_variant_access

unfoldable pub edit_path :
    List PathPart
    → (AttributeValue → Outcome AttributeValue)
    → AttributeValue
    → Outcome AttributeValue
unfolding edit_part
edit_path [] edit value = edit value
edit_path (part ∷ path) edit value = edit_part part (edit_path path edit) value

-- `entries.insert_or_assign(…)` or `entries.erase(…)`
unfoldable pub edit_map : Bytes → Option AttributeValue → AttributeStruct → Outcome AttributeStruct
edit_map key (some value) values = ok (insert_or_assign key value values)
edit_map key none values =
    throw_if (not (is_some (find key values))) invalid_argument >> ok (erase key values)

unfoldable pub patch_map : AttributePatch → AttributeValue → Outcome AttributeValue
unfolding edit_map
patch_map patch (dictionary fields) = do
  values ← edit_map patch.key patch.value (entries fields)
  throw_if (ltb 256 (length values)) length_error
  ok (dictionary (to_fields values))
patch_map patch value = err bad_variant_access

unfoldable pub splice : AttributePatch → AttributeArray → Outcome AttributeArray
splice patch items = do
  throw_if
      (ltb (length items) patch.position
        || ltb (length items - patch.position) patch.remove
        || ltb 256 (length items - patch.remove + length patch.insert))
      invalid_argument
  ok (take patch.position items ++ (patch.insert ++ drop (patch.position + patch.remove) items))

unfoldable pub patch_array : AttributePatch → AttributeValue → Outcome AttributeValue
unfolding splice
patch_array patch (array items) = do
  values ← splice patch (elements items)
  ok (array (to_items values))
patch_array patch value = err bad_variant_access

-- `*patch.value`: a replacement without a value has been refused before.
abbrev pub replacement : Option AttributeValue → Outcome AttributeValue
replacement none = err invalid_argument
replacement (some value) = ok value

unfoldable pub edit_target : AttributePatch → AttributeValue → Outcome AttributeValue
unfolding patch_map patch_array
edit_target patch value =
    if patch.replace
    then replacement patch.value
    else if patch.is_map
    then patch_map patch value
    else patch_array patch value

-- The value of a property: that of the update, or a copy of the replica's.
unfoldable pub current_value : Bytes → AttributeStruct → AttributeStruct → Outcome AttributeValue
unfolding at
current_value property materialized values = elim (find property materialized) [
  | some value ↦ ok value
  | none ↦ at property values
]

unfoldable pub materialize :
    AttributeStruct → List AttributePatch → AttributeStruct → Outcome AttributeStruct
unfolding current_value edit_path edit_target
materialize values [] materialized = ok materialized
materialize values (patch ∷ patches) materialized = do
  value ← current_value patch.property materialized values
  new ← edit_path patch.path (edit_target patch) value
  materialize values patches (insert_or_assign patch.property new materialized)

-- ===== src/AttributeReplica/Bytes.antt =====
-- `attribute_image_bytes` and `attribute_entry_bytes` of src/entity_schema.cpp: what the values of an
-- image are charged.
use fsnet.Base.{ℕ, ◌+◌, length, Bytes}
use fsnet.Attribute.{
  AttributeValue, integer, number, boolean, string, structure, array, dictionary, Fields, no_field,
  field, Items, no_item, item, AttributeStruct, to_fields,
}

unfoldable mutual
  -- what a value adds to the charge of its entry
  pub value_bytes : AttributeValue → ℕ
  value_bytes (integer n) = 0
  value_bytes (number n) = 0
  value_bytes (boolean b) = 0
  value_bytes (string text) = length text
  value_bytes (structure fields) = 256 + fields_bytes fields
  value_bytes (dictionary fields) = 256 + fields_bytes fields
  value_bytes (array items) = items_bytes items

  -- `charge`, for the elements of an array
  pub charge : AttributeValue → ℕ
  charge (integer n) = 256
  charge (number n) = 256
  charge (boolean b) = 256
  charge (string text) = 256 + length text
  charge (structure fields) = 256 + fields_bytes fields
  charge (dictionary fields) = 256 + fields_bytes fields
  charge (array items) = 256 + items_bytes items

  pub fields_bytes : Fields → ℕ
  fields_bytes no_field = 0
  fields_bytes (field name value fields) =
      (256 + length name + value_bytes value) + fields_bytes fields

  pub items_bytes : Items → ℕ
  items_bytes no_item = 0
  items_bytes (item value items) = charge value + items_bytes items

unfoldable pub attribute_entry_bytes : Bytes → AttributeValue → ℕ
unfolding value_bytes
attribute_entry_bytes name value = 256 + length name + value_bytes value

unfoldable pub attribute_image_bytes : AttributeStruct → ℕ
unfolding value_bytes
attribute_image_bytes values = 256 + fields_bytes (to_fields values)

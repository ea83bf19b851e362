-- ===== src/Attribute.antt =====
-- The values of src/attribute_wire.cpp and include/fsnet/entity_schema.hpp: AttributeValue, a variant
-- that holds maps and arrays of itself.
pub mod Encode
pub mod Decode
pub mod Written
pub mod Tagged
pub mod RoundTrip
pub mod Agrees
pub mod Size
pub mod Equality
use fsnet.Base.{
  ◌*◌, ℕ, zero, suc, ◌+◌, ◌/◌, ◌%◌, ◌^◌, Bool, not, ◌||◌, List, [], ◌∷◌, ltb, ◌==◌, length,
  is_empty, Bytes, contains_byte,
}
use fsnet.Base.Int.{ℤ}
use fsnet.Base.Maps.{Map}
use fsnet.Message.{has_separator, front_is}

-- AttributeStruct is std::map<std::string, AttributeValue> and AttributeArray a std::vector of
-- values; inside of a value both are types of the same block. A double is the bits of its IEEE
-- representation.
mutual
  pub data AttributeValue : Type 0 where
    integer : ℤ → AttributeValue
    number : ℕ → AttributeValue
    boolean : Bool → AttributeValue
    string : Bytes → AttributeValue
    structure : Fields → AttributeValue
    array : Items → AttributeValue
    dictionary : Fields → AttributeValue

  pub data Fields : Type 0 where
    no_field : Fields
    field : Bytes → AttributeValue → Fields → Fields

  pub data Items : Type 0 where
    no_item : Items
    item : AttributeValue → Items → Items

abbrev pub AttributeStruct : Type 0
AttributeStruct = Map AttributeValue

abbrev pub AttributeArray : Type 0
AttributeArray = List AttributeValue

-- The same map and the same array, inside of a value and outside.
abbrev pub to_fields : AttributeStruct → Fields
to_fields [] = no_field
to_fields ((name, value) ∷ values) = field name value (to_fields values)

abbrev pub entries : Fields → AttributeStruct
entries no_field = []
entries (field name value fields) = (name, value) ∷ entries fields

abbrev pub to_items : AttributeArray → Items
to_items [] = no_item
to_items (value ∷ values) = item value (to_items values)

abbrev pub elements : Items → AttributeArray
elements no_item = []
elements (item value items) = value ∷ elements items

-- `value.index()`
abbrev pub index : AttributeValue → ℕ
index (integer n) = 0
index (number n) = 1
index (boolean b) = 2
index (string text) = 3
index (structure fields) = 4
index (array items) = 5
index (dictionary fields) = 6

-- `std::isfinite`: not all of the eleven bits of the exponent are set.
abbrev pub is_finite : ℕ → Bool
is_finite bits = not (bits / 2 ^ 52 % 2 ^ 11 == 2047)

-- The condition under which `check_name` throws.
unfoldable pub bad_name : Bytes → Bool
unfolding has_separator
bad_name name = is_empty name || ltb 127 (length name) || front_is b'$' name || has_separator name

-- The condition under which `check_key` throws, and with it the encoder and the decoder of maps.
unfoldable pub bad_map_key : Bytes → Bool
unfolding contains_byte
bad_map_key key = is_empty key || ltb 127 (length key) || contains_byte 0 key

abbrev pub size_limit : ℕ
size_limit = 1024 * 1024

abbrev pub node_limit : ℕ
node_limit = 4096

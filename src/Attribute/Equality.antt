-- ===== src/Attribute/Equality.antt =====
-- `operator==` on AttributeValue of include/fsnet/entity_schema.hpp: that of std::variant.
use fsnet.Base.{ℕ, ◌/◌, ◌%◌, ◌^◌, Bool, true, false, not, ◌&&◌, ◌||◌, ◌==◌, text_eq}
use fsnet.Base.Int.{ℤ, pos, negsuc}
use fsnet.Base.Texts.{Bytes}
use fsnet.Attribute.{AttributeValue, dictionary, Fields, no_field, field, Items, no_item, item}
use fsnet.Attribute.{integer, number, boolean, string, structure, array}

abbrev pub eq_ℤ : ℤ → ℤ → Bool
eq_ℤ (pos m) (pos n) = m == n
eq_ℤ (negsuc m) (negsuc n) = m == n
eq_ℤ (pos m) (negsuc n) = false
eq_ℤ (negsuc m) (pos n) = false

abbrev pub eq_bool : Bool → Bool → Bool
eq_bool true b = b
eq_bool false b = not b

-- All bits of the exponent are set, and one of the fraction.
abbrev pub is_nan : ℕ → Bool
is_nan bits = bits / 2 ^ 52 % 2 ^ 11 == 2047 && not (bits % 2 ^ 52 == 0)

-- `==` on doubles: a NaN is equal to none, the two zeros are equal.
abbrev pub eq_number : ℕ → ℕ → Bool
eq_number a b = not (is_nan a) && not (is_nan b) && (a == b || (a % 2 ^ 63 == 0 && b % 2 ^ 63 == 0))

-- The same alternative, and a test of what it holds.
abbrev pub is_structure : (Fields → Bool) → AttributeValue → Bool
is_structure test (structure b) = test b
is_structure test other = false

abbrev pub is_dictionary : (Fields → Bool) → AttributeValue → Bool
is_dictionary test (dictionary b) = test b
is_dictionary test other = false

abbrev pub is_array : (Items → Bool) → AttributeValue → Bool
is_array test (array b) = test b
is_array test other = false

abbrev pub is_no_field : Fields → Bool
is_no_field no_field = true
is_no_field (field k b more) = false

abbrev pub is_field : Bytes → (AttributeValue → Bool) → (Fields → Bool) → Fields → Bool
is_field j test rest no_field = false
is_field j test rest (field k b more) = text_eq j k && test b && rest more

abbrev pub is_no_item : Items → Bool
is_no_item no_item = true
is_no_item (item b more) = false

abbrev pub is_item : (AttributeValue → Bool) → (Items → Bool) → Items → Bool
is_item test rest no_item = false
is_item test rest (item b more) = test b && rest more

unfoldable mutual
  pub value_eq : AttributeValue → AttributeValue → Bool
  value_eq (integer a) v = elim v [ integer b ↦ eq_ℤ a b | _ ↦ false ]
  value_eq (number a) v = elim v [ number b ↦ eq_number a b | _ ↦ false ]
  value_eq (boolean a) v = elim v [ boolean b ↦ eq_bool a b | _ ↦ false ]
  value_eq (string a) v = elim v [ string b ↦ text_eq a b | _ ↦ false ]
  value_eq (structure a) v = is_structure (fields_eq a) v
  value_eq (array a) v = is_array (items_eq a) v
  value_eq (dictionary a) v = is_dictionary (fields_eq a) v

  pub fields_eq : Fields → Fields → Bool
  fields_eq no_field = is_no_field
  fields_eq (field j a more) = is_field j (value_eq a) (fields_eq more)

  pub items_eq : Items → Items → Bool
  items_eq no_item = is_no_item
  items_eq (item a more) = is_item (value_eq a) (items_eq more)

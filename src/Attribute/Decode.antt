-- ===== src/Attribute/Decode.antt =====
-- `decode_value` of src/attribute_wire.cpp. `levels` is 9 - depth: the code's limit on the depth is
-- what ends the recursion. The nodes that may follow are an argument and part of the result.
use fsnet.Base.{
  ℕ, zero, suc, not, ◌||◌, [], ◌∷◌, ltb, ◌==◌, if◌then◌else◌, Bytes, invalid_argument, length_error,
  contains_byte,
}
use fsnet.Base.Int.{of_u64}
use fsnet.Base.Maps.{emplace}
use fsnet.Attribute.{
  AttributeValue, integer, number, boolean, string, structure, array, dictionary, AttributeStruct,
  AttributeArray, to_fields, to_items, is_finite, bad_name,
}
use fsnet.Wire.{Reader, ◌>>=◌, ◌>>◌, throw_if, pure, fail, or_throw, get_uint, take_text}

-- How the children of a node are read: the nodes that may follow are given and returned.
abbrev pub Children : Type 0
Children = ℕ → Reader (AttributeValue × ℕ)

abbrev pub get_scalar : Reader AttributeValue → Children
get_scalar reader remaining = do value ← reader; pure (value, remaining)

unfoldable pub get_number : Reader AttributeValue
get_number = do
  n ← get_uint invalid_argument 8
  throw_if (not (is_finite n)) invalid_argument
  pure (number n)

unfoldable pub get_boolean : Reader AttributeValue
get_boolean = do
  b ← get_uint invalid_argument 1
  throw_if (ltb 1 b) invalid_argument
  pure (boolean (not (b == 0)))

unfoldable pub get_string : Reader AttributeValue
get_string = do
  n ← get_uint invalid_argument 4
  throw_if (ltb 65536 n) invalid_argument
  text ← take_text invalid_argument n
  pure (string text)

-- `get(in, 1)` and a text of that length
unfoldable pub get_name : Reader Bytes
get_name = do n ← get_uint invalid_argument 1; take_text invalid_argument n

unfoldable pub get_map_key : Reader Bytes
get_map_key = do
  n ← get_uint invalid_argument 1
  throw_if (n == 0 || ltb 127 n) invalid_argument
  key ← take_text invalid_argument n
  throw_if (contains_byte 0 key) invalid_argument
  pure key

unfoldable pub get_fields : Children → ℕ → AttributeStruct → ℕ → Reader (AttributeStruct × ℕ)
get_fields get zero out remaining = pure (out, remaining)
get_fields get (suc n) out remaining = do
  name ← get_name
  throw_if (bad_name name) invalid_argument
  (child, left) ← get remaining
  more ← or_throw (emplace name child out) invalid_argument
  get_fields get n more left

unfoldable pub get_entries : Children → ℕ → AttributeStruct → ℕ → Reader (AttributeStruct × ℕ)
get_entries get zero out remaining = pure (out, remaining)
get_entries get (suc n) out remaining = do
  key ← get_map_key
  (child, left) ← get remaining
  more ← or_throw (emplace key child out) invalid_argument
  get_entries get n more left

unfoldable pub get_items : Children → ℕ → ℕ → Reader (AttributeArray × ℕ)
get_items get zero remaining = pure ([], remaining)
get_items get (suc n) remaining = do
  (child, left) ← get remaining
  (items, last) ← get_items get n left
  pure (child ∷ items, last)

unfoldable pub get_structure : Children → Children
get_structure get remaining = do
  count ← get_uint invalid_argument 1
  throw_if (count == 0 || ltb 64 count) invalid_argument
  (out, left) ← get_fields get count [] remaining
  pure (structure (to_fields out), left)

unfoldable pub get_array : Children → Children
get_array get remaining = do
  count ← get_uint invalid_argument 2
  throw_if (ltb 256 count) invalid_argument
  (out, left) ← get_items get count remaining
  pure (array (to_items out), left)

unfoldable pub get_dictionary : Children → Children
get_dictionary get remaining = do
  count ← get_uint invalid_argument 2
  throw_if (ltb 256 count) invalid_argument
  (out, left) ← get_entries get count [] remaining
  pure (dictionary (to_fields out), left)

-- The chain of tests of the tag.
unfoldable pub get_tagged : Children → ℕ → Children
get_tagged get tag remaining =
    if tag == 0
    then get_scalar (get_uint invalid_argument 8 >>= λ n. pure (integer (of_u64 n))) remaining
    else if tag == 1
    then get_scalar get_number remaining
    else if tag == 2
    then get_scalar get_boolean remaining
    else if tag == 3
    then get_scalar get_string remaining
    else if tag == 4
    then get_structure get remaining
    else if tag == 5
    then get_array get remaining
    else if tag == 6
    then get_dictionary get remaining
    else fail invalid_argument

unfoldable pub get_node : Children → Children
get_node get zero = fail length_error
get_node get (suc remaining) = do tag ← get_uint invalid_argument 1; get_tagged get tag remaining

unfoldable pub decode_value : ℕ → Children
unfolding get_node
decode_value zero remaining = fail length_error
decode_value (suc levels) remaining = get_node (decode_value levels) remaining

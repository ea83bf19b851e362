-- ===== src/Attribute/Size.antt =====
-- `encode_value` of src/attribute_wire.cpp counts with SizeOnly what it writes with std::string.
use fsnet.Base.{ℕ, ltb, ◌==◌, ◌||◌, ◌+◌, length, not}
use fsnet.Base.Errors.{◌>>=◌, Outcome, invalid_argument, length_error}
use fsnet.Base.Int.{to_u64}
use fsnet.Base.Texts.{Bytes}
use fsnet.Attribute.{
  AttributeValue, integer, number, boolean, string, structure, array, dictionary, Fields, no_field,
  field, Items, no_item, item, entries, elements, is_finite, bad_name, bad_map_key,
}
use fsnet.Attribute.Agrees.{
  Agrees, Agrees-ok, Agrees-write, Agrees-guard, Agrees-bind, Agrees-limit, Agrees-begin,
  Agrees-name,
}
use fsnet.Attribute.Encode.{
  write, begin_value, within_limit, text_output, size_output, encode_value, encode_fields,
  encode_entries, encode_items,
}
use fsnet.Wire.{put_uint, flag}

-- A node: the test and the tag, then the rest.
node :
    (depth : ℕ) (value : AttributeValue) (f : Bytes × ℕ → Outcome (Bytes × ℕ))
    (g : ℕ × ℕ → Outcome (ℕ × ℕ))
    → Agrees f g
    → Agrees
        (λ s. begin_value text_output depth value s >>= f)
        (λ s. begin_value size_output depth value s >>= g)
node depth value f g h =
    Agrees-bind (begin_value text_output depth value) (begin_value size_output depth value)
      (Agrees-begin depth value) f g h

-- The children, and the test of the size.
rest :
    (f : Bytes × ℕ → Outcome (Bytes × ℕ)) (g : ℕ × ℕ → Outcome (ℕ × ℕ)) (bytes : Bytes)
    → Agrees f g
    → Agrees
        (λ s. f (write text_output bytes s) >>= within_limit text_output)
        (λ s. g (write size_output bytes s) >>= within_limit size_output)
rest f g bytes h =
    Agrees-bind _ _ (Agrees-write f g h bytes) (within_limit text_output) (within_limit size_output)
      Agrees-limit

mutual
  unfolding encode_value

  pub encode_value-Agrees :
      (value : AttributeValue) (depth : ℕ)
      → Agrees (encode_value text_output value depth) (encode_value size_output value depth)
  encode_value-Agrees (integer n) depth =
      node depth (integer n) _ _ (Agrees-write _ _ Agrees-limit (put_uint 8 (to_u64 n)))
  encode_value-Agrees (number n) depth = node depth (number n) _ _ (
      Agrees-guard _ _ (Agrees-write _ _ Agrees-limit (put_uint 8 n)) (not (is_finite n))
        invalid_argument)
  encode_value-Agrees (boolean b) depth =
      node depth (boolean b) _ _ (Agrees-write _ _ Agrees-limit (put_uint 1 (flag b)))
  encode_value-Agrees (string text) depth = node depth (string text) _ _ (
      Agrees-guard _ _
        (Agrees-write _ _ (Agrees-write _ _ Agrees-limit text) (put_uint 4 (length text)))
        (ltb 65536 (length text)) length_error)
  encode_value-Agrees (structure fields) depth = node depth (structure fields) _ _ (
      Agrees-guard _ _
        (rest _ _ (put_uint 1 (length (entries fields))) (encode_fields-Agrees fields (depth + 1)))
        (length (entries fields) == 0 || ltb 64 (length (entries fields))) length_error)
  encode_value-Agrees (dictionary fields) depth = node depth (dictionary fields) _ _ (
      Agrees-guard _ _
        (rest _ _ (put_uint 2 (length (entries fields))) (encode_entries-Agrees fields (depth + 1)))
        (ltb 256 (length (entries fields))) length_error)
  encode_value-Agrees (array items) depth = node depth (array items) _ _ (
      Agrees-guard _ _
        (rest _ _ (put_uint 2 (length (elements items))) (encode_items-Agrees items (depth + 1)))
        (ltb 256 (length (elements items))) length_error)

  encode_fields-Agrees :
      (fields : Fields) (depth : ℕ)
      → Agrees (encode_fields text_output fields depth) (encode_fields size_output fields depth)
  encode_fields-Agrees no_field depth = Agrees-ok
  encode_fields-Agrees (field name value fields) depth =
      Agrees-guard _ _
        (Agrees-bind _ _ (Agrees-name _ _ name (encode_value-Agrees value depth)) _ _
          (encode_fields-Agrees fields depth))
        (bad_name name) invalid_argument

  encode_entries-Agrees :
      (fields : Fields) (depth : ℕ)
      → Agrees (encode_entries text_output fields depth) (encode_entries size_output fields depth)
  encode_entries-Agrees no_field depth = Agrees-ok
  encode_entries-Agrees (field name value fields) depth =
      Agrees-guard _ _
        (Agrees-bind _ _ (Agrees-name _ _ name (encode_value-Agrees value depth)) _ _
          (encode_entries-Agrees fields depth))
        (bad_map_key name) invalid_argument

  encode_items-Agrees :
      (items : Items) (depth : ℕ)
      → Agrees (encode_items text_output items depth) (encode_items size_output items depth)
  encode_items-Agrees no_item depth = Agrees-ok
  encode_items-Agrees (item value items) depth =
      Agrees-bind _ _ (encode_value-Agrees value depth) _ _ (encode_items-Agrees items depth)

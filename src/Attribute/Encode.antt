-- ===== src/Attribute/Encode.antt =====
-- `encode_value` of src/attribute_wire.cpp, a template over its output.
use fsnet.Base.{
  ℕ, ◌+◌, ◌-◌, not, ◌||◌, ◌++◌, ltb, ◌==◌, length, Bytes, Outcome, ok, invalid_argument,
  length_error,
}
use fsnet.Base.Errors.{◌>>=◌, ◌>>◌, throw_if}
use fsnet.Base.Int.{to_u64}
use fsnet.Attribute.{
  AttributeValue, integer, number, boolean, string, structure, array, dictionary, Fields, no_field,
  field, Items, no_item, item, entries, elements, index, is_finite, bad_name, bad_map_key,
  size_limit,
}
use fsnet.Wire.{put_uint, flag}

-- What the encoders ask of `Output`: `out += bytes` and `out.size()`.
pub record OutputOps : Type 1 where
  pub Output : Type 0
  pub append : Output → Bytes → Output
  pub size : Output → ℕ

-- std::string
abbrev pub text_output : OutputOps
text_output = record {
  Output = Bytes;
  append = λ out bytes. out ++ bytes;
  size = λ out. length out;
}

-- SizeOnly
abbrev pub size_output : OutputOps
size_output = record { Output = ℕ; append = λ out bytes. out + length bytes; size = λ out. out }

module _ (ops : OutputOps) where
  open ops use {Output, append, size}

  -- The output and the nodes that may follow.
  abbrev pub Writer : Type 0
  Writer = Output × ℕ → Outcome (Output × ℕ)

  abbrev pub write : Bytes → Output × ℕ → Output × ℕ
  write bytes s = (append s.0 bytes, s.1)

  -- `put(out, name.size(), 1); out += name;`
  abbrev pub write_name : Bytes → Output × ℕ → Output × ℕ
  write_name name s = write name (write (put_uint 1 (length name)) s)

  -- `if(out.size()>limit) throw …;`
  abbrev pub within_limit : Writer
  within_limit s = throw_if (ltb size_limit (size s.0)) length_error >> ok s

  -- the check at the beginning of `encode_value`, and the tag
  abbrev pub begin_value : ℕ → AttributeValue → Writer
  begin_value depth value s =
      throw_if (ltb 8 depth || s.1 == 0) length_error
      >> ok (append s.0 (put_uint 1 (index value)), s.1 - 1)

  unfoldable mutual
    pub encode_value : AttributeValue → ℕ → Writer
    encode_value (integer n) depth s = do
      t ← begin_value depth (integer n) s
      within_limit (write (put_uint 8 (to_u64 n)) t)
    encode_value (number n) depth s = do
      t ← begin_value depth (number n) s
      throw_if (not (is_finite n)) invalid_argument
      within_limit (write (put_uint 8 n) t)
    encode_value (boolean b) depth s = do
      t ← begin_value depth (boolean b) s
      within_limit (write (put_uint 1 (flag b)) t)
    encode_value (string text) depth s = do
      t ← begin_value depth (string text) s
      throw_if (ltb 65536 (length text)) length_error
      within_limit (write text (write (put_uint 4 (length text)) t))
    encode_value (structure fields) depth s = do
      t ← begin_value depth (structure fields) s
      let count = length (entries fields)
      throw_if (count == 0 || ltb 64 count) length_error
      u ← encode_fields fields (depth + 1) (write (put_uint 1 count) t)
      within_limit u
    encode_value (dictionary fields) depth s = do
      t ← begin_value depth (dictionary fields) s
      let count = length (entries fields)
      throw_if (ltb 256 count) length_error
      u ← encode_entries fields (depth + 1) (write (put_uint 2 count) t)
      within_limit u
    encode_value (array items) depth s = do
      t ← begin_value depth (array items) s
      let count = length (elements items)
      throw_if (ltb 256 count) length_error
      u ← encode_items items (depth + 1) (write (put_uint 2 count) t)
      within_limit u

    pub encode_fields : Fields → ℕ → Writer
    encode_fields no_field depth s = ok s
    encode_fields (field name value fields) depth s = do
      throw_if (bad_name name) invalid_argument
      t ← encode_value value depth (write_name name s)
      encode_fields fields depth t

    pub encode_entries : Fields → ℕ → Writer
    encode_entries no_field depth s = ok s
    encode_entries (field key value fields) depth s = do
      throw_if (bad_map_key key) invalid_argument
      t ← encode_value value depth (write_name key s)
      encode_entries fields depth t

    pub encode_items : Items → ℕ → Writer
    encode_items no_item depth s = ok s
    encode_items (item value items) depth s = do
      t ← encode_value value depth s
      encode_items items depth t

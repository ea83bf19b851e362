-- ===== src/AttributeUpdate/Encode.antt =====
-- `encode_image`, `encode_patch`, `encode_update`, `encode_attributes` and `attribute_wire_size` of
-- src/attribute_wire.cpp. The first three are templates over the output.
use fsnet.Base.{
  ℕ, ◌+◌, not, ◌||◌, ◌&&◌, ltb, leb, ◌==◌, length, Bytes, Bool, true, false, ok, invalid_argument,
  length_error, List, [], ◌∷◌, Option, none, some, if◌then◌else◌, is_empty, codes, is_some,
}
use fsnet.Base.Errors.{Outcome, ◌>>=◌, ◌>>◌, throw_if}
use fsnet.Base.Maps.{find}
use fsnet.Attribute.{
  AttributeValue, AttributeStruct, AttributeArray, bad_name, bad_map_key, node_limit,
}
use fsnet.Attribute.Encode.{
  OutputOps, text_output, size_output, Writer, write, write_name, within_limit, encode_value,
}
use fsnet.AttributeUpdate.{
  PathPart, key_part, index_part, AttributePatch, AttributeUpdate, field_paths,
}
use fsnet.Wire.{put_uint, flag}

module _ (ops : OutputOps) where
  open ops use {Output, append, size}

  -- the loop over the values of an image
  unfoldable pub encode_values : AttributeStruct → Writer ops
  encode_values [] s = ok s
  encode_values ((name, value) ∷ values) s = do
    throw_if (bad_name name) invalid_argument
    t ← encode_value ops value 0 (write_name ops name s)
    u ← within_limit ops t
    encode_values values u

  -- the head of an image
  abbrev pub write_image : AttributeStruct → ℕ → ℕ → Bool → Output × ℕ → Output × ℕ
  write_image values base revision snapshot s = write ops (put_uint 2 (length values)) (
      write ops (put_uint 8 revision) (
        write ops (put_uint 8 base)
          (write ops (put_uint 1 (flag snapshot)) (write ops (codes "FSA1") s))))

  unfoldable pub encode_image : AttributeStruct → ℕ → ℕ → Bool → Writer ops
  encode_image values base revision snapshot s = do
    throw_if (ltb 256 (length values) || ltb revision base || (snapshot && not (base == 0)))
        invalid_argument
    encode_values values (write_image values base revision snapshot s)

  unfoldable pub encode_path : List PathPart → Writer ops
  encode_path [] s = ok s
  encode_path (key_part key ∷ path) s = do
    throw_if (bad_map_key key) invalid_argument
    encode_path path (write_name ops key (write ops (put_uint 1 1) s))
  encode_path (index_part index ∷ path) s = do
    throw_if (leb 256 index) invalid_argument
    encode_path path (write ops (put_uint 2 index) (write ops (put_uint 1 0) s))

  -- `if(paths) { put(out,patch.path.size(),1); … }`
  unfoldable pub encode_paths : Bool → List PathPart → Writer ops
  encode_paths false path s = ok s
  encode_paths true path s = encode_path path (write ops (put_uint 1 (length path)) s)

  unfoldable pub encode_insert : AttributeArray → ℕ → Writer ops
  encode_insert [] depth s = ok s
  encode_insert (child ∷ children) depth s = do
    t ← encode_value ops child depth s
    encode_insert children depth t

  -- the value of a patch, where there is one
  unfoldable pub encode_optional : Option AttributeValue → ℕ → Writer ops
  encode_optional none depth s = ok s
  encode_optional (some value) depth s = encode_value ops value depth s

  -- the three kinds of patches
  unfoldable pub encode_replacement : AttributePatch → Writer ops
  encode_replacement patch s = do
    throw_if
        (patch.is_map
          || not (is_some patch.value)
          || not (is_empty patch.key)
          || not (is_empty patch.insert)
          || not (patch.position == 0)
          || not (patch.remove == 0))
        invalid_argument
    encode_optional patch.value (length patch.path) s

  unfoldable pub encode_entry : AttributePatch → Writer ops
  encode_entry patch s = do
    throw_if (bad_map_key patch.key) invalid_argument
    throw_if (not (is_empty patch.insert) || not (patch.position == 0) || not (patch.remove == 0))
        invalid_argument
    encode_optional patch.value (length patch.path + 1)
        (write ops (put_uint 1 (flag (is_some patch.value))) (write_name ops patch.key s))

  unfoldable pub encode_splice : AttributePatch → Writer ops
  encode_splice patch s = do
    throw_if
        (ltb 256 patch.position
          || ltb 256 patch.remove
          || ltb 256 (length patch.insert)
          || not (is_empty patch.key)
          || is_some patch.value)
        invalid_argument
    encode_insert patch.insert (length patch.path + 1) (
        write ops (put_uint 2 (length patch.insert))
          (write ops (put_uint 2 patch.remove) (write ops (put_uint 2 patch.position) s)))

  -- `patch.replace?2:patch.map?1:0`
  abbrev pub kind : AttributePatch → ℕ
  kind patch = if patch.replace then 2 else if patch.is_map then 1 else 0

  unfoldable pub encode_kind : AttributePatch → Writer ops
  encode_kind patch s =
      if patch.replace
      then encode_replacement patch s
      else if patch.is_map
      then encode_entry patch s
      else encode_splice patch s

  unfoldable pub encode_patch : AttributePatch → Bool → Writer ops
  encode_patch patch paths s = do
    throw_if (bad_name patch.property) invalid_argument
    throw_if (ltb 8 (length patch.path)) length_error
    t ← encode_paths paths patch.path (write_name ops patch.property s)
    u ← encode_kind patch (write ops (put_uint 1 (kind patch)) t)
    within_limit ops u

  unfoldable pub encode_patches : AttributeStruct → Bool → List AttributePatch → Writer ops
  encode_patches values paths [] s = ok s
  encode_patches values paths (patch ∷ patches) s = do
    throw_if (is_some (find patch.property values)) invalid_argument
    t ← encode_patch patch paths s
    encode_patches values paths patches t

  -- what follows the image
  unfoldable pub encode_rest : AttributeUpdate → Writer ops
  encode_rest update t =
      if is_empty update.patches
      then ok t
      else (throw_if (update.snapshot || ltb 256 (length update.patches)) invalid_argument
          >> encode_patches update.values (field_paths update.patches) update.patches
              (write ops (put_uint 2 (length update.patches)) t))

  unfoldable pub encode_update : AttributeUpdate → Output → Outcome (Output × ℕ)
  encode_update update out = do
    t ← encode_image update.values update.base update.revision update.snapshot (out, node_limit)
    encode_rest update t

-- `out[3] = code`
unfoldable pub set_version : ℕ → Bytes → Bytes
set_version code (f ∷ s ∷ a ∷ old ∷ out) = f ∷ s ∷ a ∷ code ∷ out
set_version code out = out

unfoldable pub encode_attributes : AttributeUpdate → Outcome Bytes
encode_attributes update = do
  t ← encode_update text_output update []
  ok (
      if is_empty update.patches
      then t.0
      else set_version (if field_paths update.patches then b'3' else b'2') t.0)

unfoldable pub attribute_wire_size : AttributeUpdate → Outcome ℕ
attribute_wire_size update = do t ← encode_update size_output update 0; ok t.0

-- `attribute_wire_size(const AttributeStruct&)`
unfoldable pub image_wire_size : AttributeStruct → Outcome ℕ
image_wire_size values = do t ← encode_image size_output values 0 0 true (0, node_limit); ok t.0

-- ===== src/AttributeUpdate/Decode.antt =====
-- `decode_attributes` of src/attribute_wire.cpp. The nodes that may follow are passed along.
use fsnet.Base.{
  ℕ, zero, suc, ◌+◌, ◌-◌, not, ◌||◌, ◌&&◌, ltb, leb, ◌==◌, length, Bytes, Bool, true, false, List,
  [], ◌∷◌, Option, none, some, if◌then◌else◌, is_some, codes, starts_with, contains_byte,
}
use fsnet.Base.Errors.{Outcome, invalid_argument, length_error}
use fsnet.Base.Maps.{find}
use fsnet.Attribute.{AttributeValue, AttributeStruct, bad_name, bad_map_key, node_limit, size_limit}
use fsnet.Attribute.Decode.{Children, decode_value, get_name, get_fields, get_items}
use fsnet.AttributeUpdate.{PathPart, key_part, index_part, AttributePatch, AttributeUpdate}
use fsnet.Wire.{
  Reader, ◌>>=◌, ◌>>◌, throw_if, pure, fail, get_uint, take_text, value_of, throw_unless_empty,
}

-- `decode_value(in,depth,remaining)`
abbrev pub decode_at : ℕ → Children
decode_at depth = decode_value (9 - depth)

unfoldable pub get_path_key : Reader PathPart
get_path_key = do
  n ← get_uint invalid_argument 1
  throw_if (n == 0 || ltb 127 n) invalid_argument
  key ← take_text invalid_argument n
  throw_if (bad_map_key key) invalid_argument
  pure (key_part key)

unfoldable pub get_path_index : Reader PathPart
get_path_index = do
  index ← get_uint invalid_argument 2
  throw_if (leb 256 index) invalid_argument
  pure (index_part index)

unfoldable pub get_path_part : Reader PathPart
get_path_part = do
  tag ← get_uint invalid_argument 1
  (if tag == 0 then get_path_index else if tag == 1 then get_path_key else fail invalid_argument)

unfoldable pub get_path : ℕ → Reader (List PathPart)
get_path zero = pure []
get_path (suc n) = do part ← get_path_part; path ← get_path n; pure (part ∷ path)

-- `if(paths) { auto depth=get(in,1); … }`
unfoldable pub get_paths : Bool → Reader (List PathPart)
get_paths false = pure []
get_paths true = do
  depth ← get_uint invalid_argument 1
  throw_if (ltb 8 depth) length_error
  get_path depth

-- The members that the kinds of patches leave as they are.
abbrev pub empty_patch : Bytes → List PathPart → AttributePatch
empty_patch property path = record {
  property = property;
  is_map = false;
  key = [];
  value = none;
  position = 0;
  remove = 0;
  insert = [];
  path = path;
  replace = false;
}

-- `patch.replace`
unfoldable pub get_replacement : Bytes → List PathPart → ℕ → Reader (AttributePatch × ℕ)
get_replacement property path remaining = do
  (value, left) ← decode_at (length path) remaining
  pure (record (empty_patch property path) { replace = true; value = some value }, left)

unfoldable pub get_present : Bool → ℕ → ℕ → Reader (Option AttributeValue × ℕ)
get_present false depth remaining = pure (none, remaining)
get_present true depth remaining = do
  (value, left) ← decode_at depth remaining
  pure (some value, left)

-- `patch.map`
unfoldable pub get_entry : Bytes → List PathPart → ℕ → Reader (AttributePatch × ℕ)
get_entry property path remaining = do
  n ← get_uint invalid_argument 1
  throw_if (n == 0 || ltb 127 n) invalid_argument
  key ← take_text invalid_argument n
  throw_if (contains_byte 0 key) invalid_argument
  present ← get_uint invalid_argument 1
  throw_if (ltb 1 present) invalid_argument
  (value, left) ← get_present (not (present == 0)) (length path + 1) remaining
  pure (record (empty_patch property path) { is_map = true; key = key; value = value }, left)

unfoldable pub get_splice : Bytes → List PathPart → ℕ → Reader (AttributePatch × ℕ)
get_splice property path remaining = do
  index ← get_uint invalid_argument 2
  remove ← get_uint invalid_argument 2
  n ← get_uint invalid_argument 2
  throw_if (ltb 256 index || ltb 256 remove || ltb 256 n) invalid_argument
  (insert, left) ← get_items (decode_at (length path + 1)) n remaining
  pure (
    record (empty_patch property path) { position = index; remove = remove; insert = insert },
    left,
  )

unfoldable pub get_kind : ℕ → Bytes → List PathPart → ℕ → Reader (AttributePatch × ℕ)
get_kind kind property path remaining =
    if kind == 2
    then get_replacement property path remaining
    else if kind == 1
    then get_entry property path remaining
    else get_splice property path remaining

unfoldable pub get_patch : AttributeStruct → Bool → ℕ → Reader (AttributePatch × ℕ)
get_patch values paths remaining = do
  property ← get_name
  throw_if (bad_name property) invalid_argument
  throw_if (is_some (find property values)) invalid_argument
  path ← get_paths paths
  kind ← get_uint invalid_argument 1
  throw_if (ltb (if paths then 2 else 1) kind) invalid_argument
  get_kind kind property path remaining

unfoldable pub get_patches : AttributeStruct → Bool → ℕ → ℕ → Reader (List AttributePatch)
get_patches values paths zero remaining = pure []
get_patches values paths (suc n) remaining = do
  (patch, left) ← get_patch values paths remaining
  patches ← get_patches values paths n left
  pure (patch ∷ patches)

-- `if(patched) { … }`
unfoldable pub get_all_patches :
    Bool → Bool → Bool → AttributeStruct → ℕ → Reader (List AttributePatch)
get_all_patches false paths snapshot values remaining = pure []
get_all_patches true paths snapshot values remaining = do
  throw_if snapshot invalid_argument
  patches ← get_uint invalid_argument 2
  throw_if (patches == 0 || ltb 256 patches) invalid_argument
  get_patches values paths patches remaining

-- What follows the four characters that name the format.
unfoldable pub get_update : Bool → Bool → Reader AttributeUpdate
get_update patched paths = do
  snapshot ← get_uint invalid_argument 1
  throw_if (ltb 1 snapshot) invalid_argument
  base ← get_uint invalid_argument 8
  revision ← get_uint invalid_argument 8
  count ← get_uint invalid_argument 2
  throw_if (ltb 256 count || ltb revision base || (not (snapshot == 0) && not (base == 0)))
      invalid_argument
  (values, left) ← get_fields (decode_at 0) count [] node_limit
  patches ← get_all_patches patched paths (not (snapshot == 0)) values left
  throw_unless_empty invalid_argument
  pure (record {
    base = base;
    revision = revision;
    snapshot = not (snapshot == 0);
    values = values;
    patches = patches;
  })

unfoldable pub decode_attributes : Bytes → Outcome AttributeUpdate
decode_attributes input = value_of (
    (do
      throw_if
          (ltb size_limit (length input)
            || (not (starts_with input (codes "FSA3") || starts_with input (codes "FSA2"))
                && not (starts_with input (codes "FSA1"))))
          invalid_argument
      head ← take_text invalid_argument 4
      get_update (starts_with input (codes "FSA3") || starts_with input (codes "FSA2"))
          (starts_with input (codes "FSA3")))
      input)

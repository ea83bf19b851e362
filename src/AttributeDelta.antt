-- ===== src/AttributeDelta.antt =====
-- The deltas of src/attribute_wire.cpp: `container_delta`, `diff_fields`, `attribute_delta` and
-- `attribute_write_delta`.
pub mod Fields
pub mod Delta
pub mod Spliced
pub mod Applied
pub mod Overlaid
pub mod Cheaper
mod Tests
use fsnet.AttributeUpdate.Decode.{empty_patch}
use fsnet.Base.Maps.{find}
use fsnet.Base.{
  ◌||◌, take, not, length, Bool, List, if◌then◌else◌, Option, ℕ, ◌+◌, ◌-◌, zero, suc, true, false,
  [], ◌∷◌, ◌++◌, none, some,
}
use fsnet.Base.Errors.{length_error, invalid_argument, Outcome, ◌>>=◌, ◌>>◌, throw_if, ok, err}
use fsnet.Base.Lists.{drop}
use fsnet.Base.Tests.{ltb, is_some}
use fsnet.Base.Texts.{is_empty, Bytes}
use fsnet.Attribute.{
  AttributeValue, AttributeStruct, AttributeArray, array, dictionary, entries, elements,
}
use fsnet.Attribute.Equality.{value_eq}
use fsnet.AttributeUpdate.{AttributePatch, AttributeUpdate, PathPart}
use fsnet.AttributeUpdate.Encode.{attribute_wire_size}

-- `while(prefix<before->size() && prefix<after->size() && (*before)[prefix]==(*after)[prefix]) ++prefix;`
unfoldable pub common_prefix : AttributeArray → AttributeArray → ℕ
common_prefix [] after = 0
common_prefix (x ∷ before) [] = 0
common_prefix (x ∷ before) (y ∷ after) = elim (value_eq x y) [
  | true ↦ suc (common_prefix before after)
  | false ↦ 0
]

-- The elements from the last to the first.
unfoldable pub reversed : AttributeArray → AttributeArray → AttributeArray
reversed [] out = out
reversed (x ∷ items) out = reversed items (x ∷ out)

-- The loop over `suffix`, which compares what is behind the common prefix from its end.
unfoldable pub common_suffix : ℕ → AttributeArray → AttributeArray → ℕ
unfolding common_prefix reversed
common_suffix prefix before after =
    common_prefix (reversed (drop prefix before) []) (reversed (drop prefix after) [])

unfoldable pub splice_patch :
    Bytes → List PathPart → AttributeArray → AttributeArray → AttributePatch
unfolding common_prefix common_suffix
splice_patch property path before after =
    let prefix = common_prefix before after in
    let suffix = common_suffix prefix before after in
    record (empty_patch property path) {
      position = prefix;
      remove = length before - prefix - suffix;
      insert = take (length after - prefix - suffix) (drop prefix after);
    }

abbrev pub entry_patch : Bytes → List PathPart → Bytes → Option AttributeValue → AttributePatch
entry_patch property path key value = record (empty_patch property path) {
  is_map = true;
  key = key;
  value = value;
}

-- the keys of `before` that `after` does not have
unfoldable pub removals :
    Bytes → List PathPart → AttributeStruct → AttributeStruct → List AttributePatch
removals property path [] after = []
removals property path ((key, value) ∷ before) after =
    let rest = removals property path before after in
    if is_some (find key after) then rest else entry_patch property path key none ∷ rest

abbrev pub is_changed : Option AttributeValue → AttributeValue → Bool
is_changed none value = true
is_changed (some old) value = not (value_eq old value)

-- the entries of `after` that `before` does not have
unfoldable pub changed : AttributeStruct → AttributeStruct → AttributeStruct
changed before [] = []
changed before ((key, value) ∷ after) =
    let rest = changed before after in
    if is_changed (find key before) value then (key, value) ∷ rest else rest

unfoldable pub assignments : Bytes → AttributeStruct → List AttributePatch
assignments property [] = []
assignments property ((key, value) ∷ values) =
    entry_patch property [] key (some value) ∷ assignments property values

-- The patches of a value that is a container before and after.
unfoldable pub container_patches :
    Bytes → Option AttributeValue → AttributeValue → Option (List AttributePatch)
unfolding splice_patch removals changed assignments
container_patches name (some (array before)) (array after) =
    some (splice_patch name [] (elements before) (elements after) ∷ [])
container_patches name (some (dictionary before)) (dictionary after) = some (
    removals name [] (entries before) (entries after)
    ++ assignments name (changed (entries before) (entries after)))
container_patches name old value = none

-- The values and the patches of the sparse update.
unfoldable pub sparse_parts :
    AttributeStruct → AttributeStruct → AttributeStruct × List AttributePatch
unfolding container_patches
sparse_parts previous [] = ([], [])
sparse_parts previous ((name, value) ∷ values) =
    let rest = sparse_parts previous values in
    elim (container_patches name (find name previous) value) [
      | none ↦ ((name, value) ∷ rest.0, rest.1)
      | some patches ↦ (rest.0, patches ++ rest.1)
    ]

abbrev pub delta_update : ℕ → ℕ → AttributeStruct → List AttributePatch → AttributeUpdate
delta_update base revision values patches = record {
  base = base;
  revision = revision;
  snapshot = false;
  values = values;
  patches = patches;
}

-- A name of `previous` is not in `next`.
unfoldable pub lacks_name : AttributeStruct → AttributeStruct → Bool
lacks_name [] next = false
lacks_name ((name, value) ∷ previous) next =
    not (is_some (find name next)) || lacks_name previous next

-- `try { if(size<limit) return smaller; } catch(const std::length_error&) {} return other;`
abbrev pub if_smaller : Outcome Bool → AttributeUpdate → AttributeUpdate → Outcome AttributeUpdate
if_smaller (ok true) smaller other = ok smaller
if_smaller (ok false) smaller other = ok other
if_smaller (err length_error) smaller other = ok other
if_smaller (err e) smaller other = err e

abbrev pub is_below : Outcome ℕ → ℕ → Outcome Bool
is_below size limit = size >>= λ n. ok (ltb n limit)

-- the sparse update where it saves bytes, else the full one
unfoldable pub sparse_or_full : AttributeUpdate → AttributeUpdate → Outcome AttributeUpdate
sparse_or_full sparse full =
    if is_empty sparse.patches || ltb 256 (length sparse.patches)
    then ok full
    else (attribute_wire_size full >>= λ full_size.
        if_smaller (is_below (attribute_wire_size sparse) full_size) sparse full)

unfoldable pub container_delta : AttributeUpdate → AttributeUpdate → Outcome AttributeUpdate
unfolding lacks_name changed sparse_parts sparse_or_full
container_delta previous next = do
  throw_if
      (not previous.snapshot
        || not next.snapshot
        || not (is_empty previous.patches)
        || not (is_empty next.patches))
      invalid_argument
  let values = changed previous.values next.values
  let parts = sparse_parts previous.values values
  if lacks_name previous.values next.values || ltb next.revision previous.revision
      then ok next
      else sparse_or_full (delta_update previous.revision next.revision parts.0 parts.1)
          (delta_update previous.revision next.revision values [])

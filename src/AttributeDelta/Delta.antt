-- ===== src/AttributeDelta/Delta.antt =====
-- `attribute_delta` and `attribute_write_delta` of src/attribute_wire.cpp.
use fsnet.Base.{
  length, ◌==◌, ◌&&◌, not, Bool, if◌then◌else◌, ℕ, true, false, [], ◌∷◌, ◌++◌, none, some, Option,
  List,
}
use fsnet.Base.Errors.{Outcome, ◌>>=◌, ok}
use fsnet.Base.Maps.{insert_or_assign, find}
use fsnet.Base.Tests.{is_some, ltb}
use fsnet.Base.Texts.{is_empty, Bytes}
use fsnet.Attribute.{AttributeValue, AttributeStruct}
use fsnet.Attribute.Equality.{value_eq}
use fsnet.AttributeDelta.{is_changed, container_delta, delta_update, if_smaller, is_below}
use fsnet.AttributeDelta.Fields.{diff_fields}
use fsnet.AttributeUpdate.{AttributePatch, AttributeUpdate}
use fsnet.AttributeUpdate.Encode.{attribute_wire_size}

-- `edits.size()==1 && edits.front().replace && edits.front().path.empty()`
abbrev pub replaces_root : List AttributePatch → Bool
replaces_root (edit ∷ []) = edit.replace && is_empty edit.path
replaces_root edits = false

-- The values and patches after a value of `next` and its old one; `edits` are those of `diff_fields`.
abbrev pub add_edits :
    Bytes
    → AttributeValue
    → List AttributePatch
    → AttributeStruct × List AttributePatch
    → AttributeStruct × List AttributePatch
add_edits name value edits parts =
    if replaces_root edits
    then (parts.0 ++ ((name, value) ∷ []), parts.1)
    else (parts.0, parts.1 ++ edits)

-- The loop over the values of `next`; `none` where there are more than 256 patches.
unfoldable pub field_parts :
    AttributeStruct
    → AttributeStruct
    → AttributeStruct × List AttributePatch
    → Outcome (Option (AttributeStruct × List AttributePatch))
unfolding diff_fields
field_parts previous [] parts = ok (some parts)
field_parts previous ((name, value) ∷ values) parts = elim (find name previous) [
  | none ↦ field_parts previous values (parts.0 ++ ((name, value) ∷ []), parts.1)
  | some old ↦ elim (value_eq old value) [
    | true ↦ field_parts previous values parts
    | false ↦
        (diff_fields 8 name [] old value >>= λ edits.
        elim (ltb 256 (length (add_edits name value edits parts).1)) [
          | true ↦ ok none
          | false ↦ field_parts previous values (add_edits name value edits parts)
        ])
  ]
]

-- the update by fields where it has patches and is smaller than the other one
unfoldable pub best_of :
    AttributeUpdate
    → AttributeUpdate
    → AttributeUpdate
    → Option (AttributeStruct × List AttributePatch)
    → Outcome AttributeUpdate
best_of previous next best none = ok best
best_of previous next best (some parts) =
    let fields = delta_update previous.revision next.revision parts.0 parts.1 in
    if is_empty parts.1
    then ok best
    else if_smaller
        (attribute_wire_size fields >>= λ size. attribute_wire_size best >>= λ n. ok (ltb size n))
        fields best

unfoldable pub attribute_delta : AttributeUpdate → AttributeUpdate → Outcome AttributeUpdate
unfolding container_delta field_parts best_of
attribute_delta previous next = do
  best ← container_delta previous next
  if best.snapshot
      then ok best
      else (field_parts previous.values next.values ([], []) >>= λ parts.
          best_of previous next best parts)

-- The confirmed values of the names that are written.
unfoldable pub confirmed_of : AttributeStruct → AttributeStruct → AttributeStruct
confirmed_of confirmed [] = []
confirmed_of confirmed ((key, value) ∷ values) =
    let rest = confirmed_of confirmed values in
    elim (find key confirmed) [ none ↦ rest | some old ↦ (key, old) ∷ rest ]

-- `update.values.emplace(key,value)` for the values that are confirmed as they are
unfoldable pub add_confirmed : AttributeStruct → AttributeStruct → AttributeStruct → AttributeStruct
add_confirmed confirmed [] out = out
add_confirmed confirmed ((key, value) ∷ values) out = add_confirmed confirmed values (
    if not (is_changed (find key confirmed) value) && not (is_some (find key out))
    then insert_or_assign key value out
    else out)

abbrev pub full_image : ℕ → AttributeStruct → AttributeUpdate
full_image revision values = record {
  base = 0;
  revision = revision;
  snapshot = true;
  values = values;
  patches = [];
}

unfoldable pub attribute_write_delta :
    AttributeStruct → ℕ → AttributeStruct → ℕ → Outcome AttributeUpdate
unfolding confirmed_of attribute_delta add_confirmed
attribute_write_delta confirmed confirmed_revision values expected_revision =
    let full = delta_update expected_revision expected_revision values [] in
    if not (expected_revision == confirmed_revision)
    then ok full
    else (attribute_delta (full_image expected_revision (confirmed_of confirmed values))
          (full_image expected_revision values)
        >>= λ delta.
            let update = record delta { values = add_confirmed confirmed values delta.values } in
            attribute_wire_size full >>= λ full_size.
            if_smaller (is_below (attribute_wire_size update) full_size) update full)

-- ===== src/AttributeDelta/Fields.antt =====
-- `diff_fields` of src/attribute_wire.cpp: at each value a replacement, edits of its fields or a splice.
use fsnet.AttributeUpdate.Decode.{empty_patch}
use fsnet.Base.{
  not, ◌||◌, ◌&&◌, ◌==◌, if◌then◌else◌, List, ℕ, ◌+◌, ◌-◌, zero, suc, true, false, [], ◌∷◌, ◌++◌,
  none, some, length, take,
}
use fsnet.Base.Errors.{Outcome, ◌>>=◌, ok}
use fsnet.Base.Lists.{drop}
use fsnet.Base.Maps.{find}
use fsnet.Base.Tests.{leb, ltb}
use fsnet.Base.Texts.{is_empty, Bytes}
use fsnet.Attribute.{
  node_limit, AttributeValue, AttributeStruct, AttributeArray, structure, array, dictionary,
  entries, elements,
}
use fsnet.Attribute.Encode.{size_output}
use fsnet.Attribute.Equality.{value_eq}
use fsnet.AttributeDelta.{
  splice_patch, entry_patch, removals, common_prefix, common_suffix, lacks_name,
}
use fsnet.AttributeUpdate.{AttributePatch, PathPart, key_part, index_part}
use fsnet.AttributeUpdate.Encode.{encode_patch}
use fsnet.EntitySchema.Carrier.{at}

unfoldable pub patch_cost : AttributePatch → Outcome ℕ
patch_cost patch = do t ← encode_patch size_output patch true (0, node_limit); ok t.0

unfoldable pub total_cost : List AttributePatch → Outcome ℕ
unfolding patch_cost
total_cost [] = ok 0
total_cost (edit ∷ edits) = do cost ← patch_cost edit; rest ← total_cost edits; ok (cost + rest)

-- One patch in place of edits that are none, too many or not cheaper.
unfoldable pub cheaper : AttributePatch → List AttributePatch → Outcome (List AttributePatch)
unfolding total_cost
cheaper patch edits = do
  cost ← total_cost edits
  if is_empty edits || ltb 256 (length edits)
      then ok (patch ∷ [])
      else (patch_cost patch >>= λ own. ok (if leb own cost then patch ∷ [] else edits))

-- The recursive call for the child behind a part of the path.
abbrev pub Diff : Type 0
Diff = List PathPart → AttributeValue → AttributeValue → Outcome (List AttributePatch)

-- `append` for each field of a struct, up to more than 256 edits
unfoldable pub field_edits :
    Diff
    → List PathPart
    → AttributeStruct
    → AttributeStruct
    → List AttributePatch
    → Outcome (List AttributePatch)
unfolding at
field_edits diff path old [] edits = ok edits
field_edits diff path old ((key, child) ∷ values) edits = do
  before ← at key old
  children ← diff (path ++ (key_part key ∷ [])) before child
  elim (ltb 256 (length (edits ++ children))) [
    | true ↦ ok (edits ++ children)
    | false ↦ field_edits diff path old values (edits ++ children)
  ]

-- the same for the entries of a map, with a new entry for a key that is not in the old one
unfoldable pub entry_edits :
    Diff
    → Bytes
    → List PathPart
    → AttributeStruct
    → AttributeStruct
    → List AttributePatch
    → Outcome (List AttributePatch)
entry_edits diff property path old [] edits = ok edits
entry_edits diff property path old ((key, child) ∷ values) edits = elim (ltb 256 (length edits)) [
  | true ↦ ok edits
  | false ↦ elim (find key old) [
    | some before ↦
        (diff (path ++ (key_part key ∷ [])) before child >>= λ children.
        entry_edits diff property path old values (edits ++ children))
    | none ↦
        entry_edits diff property path old values
          (edits ++ (entry_patch property path key (some child) ∷ []))
  ]
]

-- the same for the elements that differ in arrays of one size, from an index on
unfoldable pub item_edits :
    Diff
    → List PathPart
    → ℕ
    → AttributeArray
    → AttributeArray
    → List AttributePatch
    → Outcome (List AttributePatch)
item_edits diff path index (before ∷ old) (child ∷ values) edits = do
  children ← diff (path ++ (index_part index ∷ [])) before child
  elim (ltb 256 (length (edits ++ children))) [
    | true ↦ ok (edits ++ children)
    | false ↦ item_edits diff path (index + 1) old values (edits ++ children)
  ]
item_edits diff path index old values edits = ok edits

unfoldable pub array_edits :
    Diff → Bytes → List PathPart → AttributeArray → AttributeArray → Outcome (List AttributePatch)
unfolding item_edits cheaper common_prefix common_suffix splice_patch
array_edits diff property path old values =
    let prefix = common_prefix old values in
    let suffix = common_suffix prefix old values in
    let middle = length values - suffix - prefix in
    (if length old == length values
      then item_edits diff path prefix (take middle (drop prefix old))
          (take middle (drop prefix values)) []
      else ok [])
    >>= λ edits. cheaper (splice_patch property path old values) edits

-- The edits of the children of a value.
unfoldable pub child_edits :
    Diff → Bytes → List PathPart → AttributeValue → AttributeValue → Outcome (List AttributePatch)
unfolding field_edits entry_edits array_edits removals lacks_name
child_edits diff property path (structure old) (structure values) =
    if length (entries old) == length (entries values)
      && not (lacks_name (entries old) (entries values))
    then field_edits diff path (entries old) (entries values) []
    else ok []
child_edits diff property path (dictionary old) (dictionary values) =
    entry_edits diff property path (entries old) (entries values)
      (removals property path (entries old) (entries values))
child_edits diff property path (array old) (array values) =
    array_edits diff property path (elements old) (elements values)
child_edits diff property path before after = ok []

abbrev pub replacement_patch : Bytes → List PathPart → AttributeValue → AttributePatch
replacement_patch property path after = record (empty_patch property path) {
  value = some after;
  replace = true;
}

-- `levels` is 8 less the length of the path, which is below 8 where the children are looked at.
unfoldable pub diff_fields : ℕ → Bytes → Diff
unfolding child_edits cheaper
diff_fields zero property path before after =
    if value_eq before after then ok [] else cheaper (replacement_patch property path after) []
diff_fields (suc levels) property path before after =
    if value_eq before after
    then ok []
    else (child_edits (diff_fields levels property) property path before after >>= λ edits.
        cheaper (replacement_patch property path after) edits)

-- ===== src/AttributeDelta/Tests.antt =====
-- The deltas of src/attribute_wire.cpp at concrete inputs.
use fsnet.AttributeUpdate.Encode.{
  encode_path, encode_paths, encode_kind, encode_splice, encode_insert, encode_replacement,
  encode_optional,
}
use fsnet.Base.{arith, refl, false, ◌≡◌, [], ◌∷◌, true}
use fsnet.Base.Errors.{ok}
use fsnet.Base.Maps.{insert_or_assign, find, IsSorted}
use fsnet.Base.Texts.{text_lt, text_eq, codes}
use fsnet.Attribute.{
  bad_name, AttributeStruct, AttributeArray, array, elements, to_items, Items, item, no_item,
  boolean, string,
}
use fsnet.Attribute.Encode.{encode_value}
use fsnet.Attribute.Equality.{value_eq}
use fsnet.AttributeDelta.{
  sparse_or_full, container_patches, sparse_parts, container_delta, delta_update, lacks_name,
  changed, reversed, common_suffix, common_prefix, splice_patch,
}
use fsnet.AttributeDelta.Applied.{edit_target-splice_patch}
use fsnet.AttributeDelta.Cheaper.{
  attribute_delta-Chosen, attribute_write_delta-NotLarger, Chosen, NotLarger,
}
use fsnet.AttributeDelta.Delta.{
  add_confirmed, confirmed_of, attribute_write_delta, best_of, field_parts, full_image,
  attribute_delta,
}
use fsnet.AttributeDelta.Fields.{diff_fields}
use fsnet.AttributeDelta.Overlaid.{Agree, overlay-changed}
use fsnet.AttributeDelta.Spliced.{Follows}
use fsnet.AttributeReplica.{overlay}
use fsnet.AttributeReplica.Patch.{edit_target}
use fsnet.AttributeUpdate.{field_paths, AttributeUpdate}
use fsnet.AttributeUpdate.Decode.{empty_patch}
use fsnet.AttributeUpdate.Encode.{
  encode_insert, encode_splice, encode_kind, encode_paths, encode_patches, encode_rest,
  encode_values, encode_image, encode_patch, encode_update, attribute_wire_size,
}
use fsnet.Wire.{put_uint}

abbrev old_items : Items
old_items =
    item (string (codes "a")) (item (string (codes "b")) (item (string (codes "c")) no_item))

abbrev new_items : Items
new_items =
    item (string (codes "a"))
      (item (boolean true) (item (boolean false) (item (string (codes "c")) no_item)))

-- The first and the last element stay.
splice_found :
    splice_patch (codes "list") [] (elements old_items) (elements new_items)
    ≡ record (empty_patch (codes "list") []) {
      position = 1;
      remove = 1;
      insert = boolean true ∷ boolean false ∷ [];
    }
unfolding splice_patch common_prefix common_suffix reversed value_eq text_eq
splice_found = refl

edit_target-splice_patch_example :
    (result : AttributeArray) × (edit_target
        (splice_patch (codes "list") [] (elements old_items) (elements new_items))
        (array old_items)
      ≡ ok (array (to_items result)))
    × Follows result (elements new_items)
edit_target-splice_patch_example =
    edit_target-splice_patch (codes "list") [] old_items new_items (omega arith)

abbrev old_image : AttributeStruct
old_image = (codes "hp", boolean true) ∷ (codes "list", array old_items) ∷ []

abbrev new_image : AttributeStruct
new_image =
    (codes "hp", boolean true)
    ∷ (codes "list", array new_items)
    ∷ (codes "name", string (codes "x"))
    ∷ []

new_image-IsSorted : IsSorted new_image
unfolding text_lt
new_image-IsSorted = (refl, (refl, tt))

names_stay : lacks_name old_image new_image ≡ false
unfolding lacks_name find text_eq
names_stay = refl

overlay-changed_example :
    Agree
      (find (codes "list") (overlay old_image (changed old_image new_image)))
      (find (codes "list") new_image)
overlay-changed_example =
    overlay-changed old_image new_image new_image-IsSorted names_stay (codes "list")

abbrev old_update : AttributeUpdate
old_update = full_image 3 old_image

abbrev new_update : AttributeUpdate
new_update = full_image 5 new_image

abbrev sent : AttributeUpdate
sent = delta_update 3 5 ((codes "name", string (codes "x")) ∷ []) (
    record (empty_patch (codes "list") []) {
      position = 1;
      remove = 1;
      insert = boolean true ∷ boolean false ∷ [];
    }
    ∷ [])

sent_delta : attribute_delta old_update new_update ≡ ok sent
unfolding attribute_delta container_delta lacks_name changed sparse_parts container_patches
    sparse_or_full field_parts best_of attribute_wire_size find text_eq value_eq splice_patch
    common_prefix common_suffix reversed encode_update encode_patch diff_fields encode_image
    encode_values bad_name encode_value put_uint encode_rest encode_patches encode_paths field_paths
    encode_kind encode_splice encode_insert encode_path encode_replacement encode_optional
sent_delta = refl

attribute_delta-Chosen_example : Chosen old_update new_update sent
attribute_delta-Chosen_example = attribute_delta-Chosen old_update new_update sent sent_delta

abbrev written : AttributeUpdate
written = record sent {
  revision = 3;
  values = (codes "hp", boolean true) ∷ (codes "name", string (codes "x")) ∷ [];
}

written_delta : attribute_write_delta old_image 3 new_image 3 ≡ ok written
unfolding attribute_write_delta confirmed_of add_confirmed attribute_delta container_delta
    lacks_name changed sparse_parts container_patches sparse_or_full field_parts best_of
    attribute_wire_size find text_eq value_eq splice_patch common_prefix common_suffix reversed
    encode_update encode_patch diff_fields encode_image encode_values bad_name encode_value put_uint
    encode_rest encode_patches encode_paths field_paths encode_kind encode_splice encode_insert
    encode_path encode_replacement encode_optional insert_or_assign text_lt
written_delta = refl

attribute_write_delta-NotLarger_example : NotLarger (delta_update 3 3 new_image []) written
attribute_write_delta-NotLarger_example =
    attribute_write_delta-NotLarger old_image 3 new_image 3 written written_delta

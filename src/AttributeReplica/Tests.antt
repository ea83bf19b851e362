-- ===== src/AttributeReplica/Tests.antt =====
-- Runs of the definitions for AttributeReplica of src/attribute_wire.cpp.
use fsnet.Base.{true, false, [], ◌∷◌, some, codes, Bytes, ok, ◌≡◌, refl}
use fsnet.Base.Int.{pos}
use fsnet.Base.Maps.{find, insert_or_assign}
use fsnet.Base.Texts.{contains_byte, text_eq, text_lt}
use fsnet.Attribute.{integer, bad_name, AttributeStruct}
use fsnet.Attribute.Encode.{encode_value}
use fsnet.AttributeReplica.{overlay}
use fsnet.AttributeReplica.Apply.{
  Replica, empty_replica, image_with, apply, store, image_size, values, validate_overlay, merged,
  visit, validate_fields,
}
use fsnet.AttributeReplica.Bytes.{attribute_entry_bytes, attribute_image_bytes, value_bytes}
use fsnet.AttributeReplica.Follow.{apply-changes}
use fsnet.AttributeUpdate.{AttributeUpdate}
use fsnet.AttributeUpdate.Encode.{
  attribute_wire_size, encode_update, encode_image, encode_values, encode_rest,
}
use fsnet.EntitySchema.Carrier.{at, add}
use fsnet.EntitySchema.History.{Publishes, nothing, and_then}
use fsnet.EntitySchema.Tests.{
  first_state, second_state, first-IsSound, wound, wound_published, onlooker,
}
use fsnet.EntitySchema.Views.{snapshot, changes, collect, collect_changes, visible}
use fsnet.Message.{has_separator}
use fsnet.Wire.{put_uint}

abbrev healthy : AttributeStruct
healthy = (codes "hp", integer (pos 10)) ∷ []

abbrev wounded : AttributeStruct
wounded = (codes "hp", integer (pos 4)) ∷ []

abbrev hit : AttributeUpdate
hit = record { base = 0; revision = 1; snapshot = false; values = wounded; patches = [] }

abbrev first_replica : Replica
first_replica = record {
  image = some (image_with 0 healthy);
  revision = 0;
  initialized = true;
  image_bytes = 549;
}

abbrev second_replica : Replica
second_replica = record {
  image = some (image_with 1 wounded);
  revision = 1;
  initialized = true;
  image_bytes = 549;
}

before_shown : snapshot onlooker first_state ≡ ok (image_with 0 healthy)
unfolding snapshot collect visible at add find insert_or_assign text_eq
before_shown = refl

hit_shown : changes 0 onlooker second_state ≡ ok hit
unfolding changes collect_changes visible at add find insert_or_assign text_eq
hit_shown = refl

now_shown : snapshot onlooker second_state ≡ ok (image_with 1 wounded)
unfolding snapshot collect visible at add find insert_or_assign text_eq
now_shown = refl

before_applied : apply 1000 (image_with 0 healthy) empty_replica ≡ ok (true, first_replica)
unfolding apply store image_size values attribute_wire_size encode_update encode_image encode_values
    encode_rest encode_value bad_name has_separator contains_byte put_uint attribute_image_bytes
    value_bytes
before_applied = refl

hit_applied : apply 1000 hit first_replica ≡ ok (true, second_replica)
unfolding apply store image_size values attribute_wire_size encode_update encode_image encode_values
    encode_rest encode_value bad_name has_separator contains_byte put_uint validate_overlay merged
    visit validate_fields attribute_entry_bytes value_bytes overlay insert_or_assign text_eq text_lt
hit_applied = refl

run : Publishes first_state second_state
run = and_then nothing wound true wound_published

apply-changes_example :
    (true ≡ true)
    × ((k : Bytes) → find k (values second_replica) ≡ find k (image_with 1 wounded).values)
    × (second_replica.revision ≡ (image_with 1 wounded).revision)
apply-changes_example =
    apply-changes first_state second_state onlooker (image_with 0 healthy) hit
      (image_with 1 wounded) 1000 empty_replica first_replica second_replica true first-IsSound run
      before_shown hit_shown now_shown before_applied hit_applied

-- ===== src/EntitySchema/Tests.antt =====
-- Runs of the definitions for src/entity_schema.cpp.
use fsnet.Base.{arith, true, false, [], ◌∷◌, codes, ok, ◌≡◌, refl}
use fsnet.Base.Int.{pos, negsuc}
use fsnet.Base.Maps.{find, insert_or_assign}
use fsnet.Base.Texts.{Bytes, contains_byte, text_eq}
use fsnet.Attribute.{AttributeStruct, integer}
use fsnet.Attribute.Equality.{value_eq}
use fsnet.AttributeUpdate.{AttributeUpdate}
use fsnet.EntitySchema.{
  Caller, CallIdentity, absent, answers, live, AttributeDefinition, definition, no_definition,
  no_element, EntitySchema, AttributeView, AttributeType, Access, Visibility,
}
use fsnet.EntitySchema.Carrier.{
  stage, stage_values, EntityAttributes, Mutation, create, publish, initial_values, all_modified,
  add, at, is_valid, check_values, prepare, commit,
}
use fsnet.EntitySchema.Collected.{or_found}
use fsnet.EntitySchema.Created.{create-IsSound}
use fsnet.EntitySchema.Definition.{
  validate, validate_attributes, validate_methods, definition_valid, name_valid, bad_shape,
}
use fsnet.EntitySchema.Prepared.{differing}
use fsnet.EntitySchema.Reachable.{Reaches, created, published, Reaches-IsSound}
use fsnet.EntitySchema.Sound.{IsSound}
use fsnet.EntitySchema.Staged.{publish-stage}
use fsnet.EntitySchema.Total.{snapshot-changes-persistent}
use fsnet.EntitySchema.Valid.{valid}
use fsnet.EntitySchema.Views.{snapshot, changes, persistent}
use fsnet.Message.{has_separator}

abbrev pub health : AttributeDefinition
health =
    definition
      (record {
        type = AttributeType.integer;
        initial = integer (pos 10);
        server = Access.read_write;
        client = Access.read;
        visibility = Visibility.observers;
        persist = true;
        minimum = negsuc 0;
        maximum = pos 100;
        driver_authority = false;
        length = 0;
        max_items = 0;
      })
      no_definition no_element

abbrev pub creature : EntitySchema
creature = record { attributes = (codes "hp", health) ∷ []; methods = [] }

abbrev pub first_state : EntityAttributes
first_state = record {
  schema = creature;
  owner = [];
  values = (codes "hp", integer (pos 10)) ∷ [];
  revision = 0;
  modified = (codes "hp", 0) ∷ [];
}

abbrev pub wound : Mutation
wound = record { expected = 0; values = (codes "hp", integer (pos 4)) ∷ [] }

abbrev pub second_state : EntityAttributes
second_state = record {
  schema = creature;
  owner = [];
  values = (codes "hp", integer (pos 4)) ∷ [];
  revision = 1;
  modified = (codes "hp", 1) ∷ [];
}

pub first_created : create creature [] ≡ ok first_state
unfolding create validate validate_attributes validate_methods definition_valid name_valid bad_shape
    has_separator contains_byte initial_values all_modified add find insert_or_assign valid
first_created = refl

pub wound_published : publish wound first_state ≡ ok (true, second_state)
unfolding publish check_values at find text_eq is_valid valid prepare add value_eq commit
    insert_or_assign
wound_published = refl

second_reached : Reaches creature [] second_state
second_reached = published wound true (created first_created) wound_published

Reaches-IsSound_example : IsSound second_state
Reaches-IsSound_example = Reaches-IsSound creature [] second_state tt second_reached

pub first-IsSound : IsSound first_state
first-IsSound = create-IsSound creature [] first_state tt first_created

abbrev pub onlooker : AttributeView
onlooker = record { observer = true; connection = record { id = []; generation = 0 } }

snapshot-changes-persistent_example :
    ((u : AttributeUpdate) × (snapshot onlooker first_state ≡ ok u))
    × ((u : AttributeUpdate) × (changes 0 onlooker first_state ≡ ok u))
    × ((values : AttributeStruct) × (persistent first_state ≡ ok values))
snapshot-changes-persistent_example =
    snapshot-changes-persistent first_state onlooker 0 first-IsSound

abbrev script : CallIdentity
script = record {
  caller = Caller.server;
  subject = [];
  peer = 0;
  connection = record { id = []; generation = 0 };
  current = absent;
  execution = answers true;
}

wound_staged : stage wound.values script first_state ≡ ok wound
unfolding stage stage_values at find text_eq is_valid valid live
wound_staged = refl

publish-stage_example :
    (e2 : EntityAttributes) × (publish wound first_state ≡ ok (true, e2))
    × ((k : Bytes)
        → find k e2.values
          ≡ or_found
              (differing (find k wound.values) (find k first_state.values))
              (find k first_state.values))
publish-stage_example =
    publish-stage wound.values script first_state wound first-IsSound tt (omega arith) wound_staged

-- ===== src/EntitySchema/Carrier.antt =====
-- src/entity_schema.cpp: EntityAttributes, the attributes of one entity. A mutation is staged, and
-- published when the entity's record has been committed.
use fsnet.Base.{
  ℕ, ◌+◌, ◌-◌, ◌^◌, Bool, true, false, not, ◌||◌, ◌==◌, ltb, Bytes, [], ◌∷◌, length, Option, none,
  some, if◌then◌else◌, is_empty, is_some,
}
use fsnet.Base.Errors.{
  Outcome, ok, err, invalid_argument, runtime_error, overflow_error, out_of_range, throw_if, ◌>>=◌,
  ◌>>◌,
}
use fsnet.Base.Maps.{Map, find, insert_or_assign}
use fsnet.Attribute.{AttributeValue, AttributeStruct}
use fsnet.Attribute.Equality.{value_eq}
use fsnet.EntitySchema.{
  AttributeDefinition, EntitySchema, CallIdentity, head, live, owns, for_caller,
}
use fsnet.EntitySchema.Definition.{reads, writes, is_none, validate}
use fsnet.EntitySchema.Valid.{valid}

pub record EntityAttributes : Type 0 where
  pub schema : EntitySchema
  pub owner : Bytes
  pub values : AttributeStruct
  pub revision : ℕ
  pub modified : Map ℕ

pub record Mutation : Type 0 where
  pub expected : ℕ
  pub values : AttributeStruct

-- `map.at(name)`
abbrev pub or_out_of_range {ℓ} : {A : Type ℓ} → Option A → Outcome A
or_out_of_range none = err out_of_range
or_out_of_range (some a) = ok a

unfoldable pub at {ℓ} : {A : Type ℓ} → Bytes → Map A → Outcome A
at name m = or_out_of_range (find name m)

-- `m.emplace(name, value)`, whose result is not used
unfoldable pub add {ℓ} : {A : Type ℓ} → Bytes → A → Map A → Map A
add name value m = if is_some (find name m) then m else insert_or_assign name value m

-- `valid(d, v)`, with a budget of its own
unfoldable pub is_valid : AttributeDefinition → AttributeValue → Bool
is_valid d value = is_some (valid value d 0 4096)

unfoldable pub initial_values : Map AttributeDefinition → AttributeStruct → AttributeStruct
unfolding add
initial_values [] values = values
initial_values ((name, d) ∷ attributes) values =
    initial_values attributes (add name (head d).initial values)

unfoldable pub all_modified : ℕ → Map AttributeDefinition → Map ℕ → Map ℕ
unfolding add
all_modified version [] modified = modified
all_modified version ((name, d) ∷ attributes) modified =
    all_modified version attributes (add name version modified)

unfoldable pub create : EntitySchema → Bytes → Outcome EntityAttributes
unfolding initial_values all_modified
create schema owner = do
  validate schema
  ok (record {
    schema = schema;
    owner = owner;
    values = initial_values schema.attributes [];
    revision = 0;
    modified = all_modified 0 schema.attributes [];
  })

-- Whether the caller may act for the entity: `who.caller==Caller::server?!who.live():!who.owns(owner_)`
abbrev pub denied : CallIdentity → Bytes → Bool
denied who owner = for_caller who.caller (not (live who)) (not (owns who owner))

abbrev pub hidden : CallIdentity → AttributeDefinition → Bool
hidden who d = for_caller who.caller false (is_none (head d).visibility)

unfoldable pub read : Bytes → CallIdentity → EntityAttributes → Outcome AttributeValue
read name who e = do
  d ← at name e.schema.attributes
  throw_if
      (not (reads (for_caller who.caller (head d).server (head d).client))
        || denied who e.owner
        || hidden who d)
      runtime_error
  at name e.values

unfoldable pub stage_values :
    CallIdentity → Map AttributeDefinition → AttributeStruct → Outcome (Unit {0})
unfolding at is_valid
stage_values who attributes [] = ok tt
stage_values who attributes ((name, value) ∷ values) = do
  d ← at name attributes
  throw_if (not (writes (for_caller who.caller (head d).server (head d).client))) runtime_error
  throw_if (not (is_valid d value)) invalid_argument
  stage_values who attributes values

unfoldable pub stage : AttributeStruct → CallIdentity → EntityAttributes → Outcome Mutation
stage values who e = do
  throw_if (ltb (length e.schema.attributes) (length values)) invalid_argument
  throw_if (denied who e.owner) runtime_error
  stage_values who e.schema.attributes values
  ok (record { expected = e.revision; values = values })

-- `if(!valid(schema_.attributes.at(name), value)) throw …;` for each value
unfoldable pub check_values : Map AttributeDefinition → AttributeStruct → Outcome (Unit {0})
unfolding at is_valid
check_values attributes [] = ok tt
check_values attributes ((name, value) ∷ values) = do
  d ← at name attributes
  throw_if (not (is_valid d value)) invalid_argument
  check_values attributes values

-- The values that differ from those that are there.
unfoldable pub prepare :
    AttributeStruct → AttributeStruct → AttributeStruct → Outcome AttributeStruct
unfolding at add
prepare current [] prepared = ok prepared
prepare current ((name, value) ∷ values) prepared = do
  old ← at name current
  prepare current values (if not (value_eq old value) then add name value prepared else prepared)

-- `values_.at(name).swap(value); modified_.at(name) = revision_ + 1;`: the names have been looked up in
-- `prepare`, and every state that the constructor leads to has the same names in both maps.
unfoldable pub commit : ℕ → AttributeStruct → AttributeStruct × Map ℕ → AttributeStruct × Map ℕ
commit version [] s = s
commit version ((name, value) ∷ prepared) s =
    commit version prepared (insert_or_assign name value s.0, insert_or_assign name version s.1)

-- `false`, and the state as it was, for a stale mutation
unfoldable pub publish : Mutation → EntityAttributes → Outcome (Bool × EntityAttributes)
unfolding check_values prepare commit
publish mutation e = if not (mutation.expected == e.revision) then ok (false, e) else (do
  throw_if (e.revision == 2 ^ 64 - 1) overflow_error
  check_values e.schema.attributes mutation.values
  prepared ← prepare e.values mutation.values []
  let (values, modified) = commit (e.revision + 1) prepared (e.values, e.modified)
  ok (
    true,
    if is_empty prepared
        then e
        else record e { values = values; revision = e.revision + 1; modified = modified },
  ))

-- `next.at(name) = value` for each value, after the tests
unfoldable pub restore_values :
    (AttributeDefinition → Bool)
    → Map AttributeDefinition
    → AttributeStruct
    → AttributeStruct
    → Outcome AttributeStruct
unfolding at is_valid
restore_values allowed attributes [] next = ok next
restore_values allowed attributes ((name, value) ∷ values) next = do
  d ← at name attributes
  throw_if (not (allowed d) || not (is_valid d value)) invalid_argument
  old ← at name next
  restore_values allowed attributes values (insert_or_assign name value next)

-- `version = revision` for each entry
unfoldable pub set_versions : ℕ → Map ℕ → Map ℕ
set_versions revision [] = []
set_versions revision ((name, version) ∷ modified) =
    (name, revision) ∷ set_versions revision modified

unfoldable pub restore_with :
    (AttributeDefinition → Bool) → AttributeStruct → ℕ → EntityAttributes → Outcome EntityAttributes
unfolding restore_values set_versions
restore_with allowed values revision e = do
  next ← restore_values allowed e.schema.attributes values e.values
  ok (record e { values = next; revision = revision; modified = set_versions revision e.modified })

abbrev pub restore_full : AttributeStruct → ℕ → EntityAttributes → Outcome EntityAttributes
restore_full = restore_with (λ d. true)

abbrev pub restore : AttributeStruct → ℕ → EntityAttributes → Outcome EntityAttributes
restore = restore_with (λ d. (head d).persist)

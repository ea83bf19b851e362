-- ===== src/EntitySchema/Created.antt =====
-- The constructor of EntityAttributes of src/entity_schema.cpp: the first state is well formed.
use fsnet.Base.{
  ℕ, ◌+◌, ◌-◌, ◌≤◌, Bool, true, false, not, ◌||◌, ◌&&◌, Bytes, [], ◌∷◌, Option, none, some,
  if◌then◌else◌, ◌≡◌, refl, sym, ap, ◌∙◌, arith, inl, inr, is_some, length, ltb,
}
use fsnet.Base.Errors.{ok, >>=-eq-ok, ok-injective, throw_if-eq-ok}
use fsnet.Base.Int.{ltb_ℤ}
use fsnet.Base.Maps.{Map, find, IsSorted}
use fsnet.Base.Tests.{Bool-cases}
use fsnet.Base.Texts.{text_eq}
use fsnet.Attribute.{AttributeValue, AttributeStruct}
use fsnet.EntitySchema.{AttributeDefinition, EntitySchema, head}
use fsnet.EntitySchema.Budget.{valid-More}
use fsnet.EntitySchema.Carrier.{
  EntityAttributes, add, is_valid, initial_values, all_modified, create,
}
use fsnet.EntitySchema.Collected.{or_found, or_found_none, or_found_assoc, find-add}
use fsnet.EntitySchema.Definition.{
  validate, validate_attributes, definition_valid, or_invalid, name_valid, reads, is_none,
}
use fsnet.EntitySchema.Sound.{IsSound}
use fsnet.EntitySchema.Valid.{valid}
use mathlib.Core.Path.{subst}

abbrev with_initial : Option AttributeDefinition → Option AttributeValue
with_initial none = none
with_initial (some d) = some (head d).initial

abbrev with_version : ℕ → Option AttributeDefinition → Option ℕ
with_version version none = none
with_version version (some d) = some version

find-initial_values :
    (k : Bytes) (attributes : Map AttributeDefinition) (out : AttributeStruct)
    → find k (initial_values attributes out)
      ≡ or_found (find k out) (with_initial (find k attributes))
unfolding initial_values find
find-initial_values k [] out = sym (or_found_none (find k out))
find-initial_values k ((name, d) ∷ attributes) out =
    find-initial_values k attributes (add name (head d).initial out)
    ∙ ap (λ o. or_found o (with_initial (find k attributes))) (find-add k name (head d).initial out)
    ∙ or_found_assoc (find k out) _ _
    ∙ ap (λ o. or_found (find k out) o) (first (text_eq name k))
  where
    first :
        (b : Bool)
        → or_found (if b then some (head d).initial else none) (with_initial (find k attributes))
          ≡ with_initial (if b then some d else find k attributes)
    first true = refl
    first false = refl

find-all_modified :
    (k : Bytes) (version : ℕ) (attributes : Map AttributeDefinition) (out : Map ℕ)
    → find k (all_modified version attributes out)
      ≡ or_found (find k out) (with_version version (find k attributes))
unfolding all_modified find
find-all_modified k version [] out = sym (or_found_none (find k out))
find-all_modified k version ((name, d) ∷ attributes) out =
    find-all_modified k version attributes (add name version out)
    ∙ ap (λ o. or_found o (with_version version (find k attributes))) (find-add k name version out)
    ∙ or_found_assoc (find k out) _ _
    ∙ ap (λ o. or_found (find k out) o) (first (text_eq name k))
  where
    first :
        (b : Bool)
        → or_found (if b then some version else none) (with_version version (find k attributes))
          ≡ with_version version (if b then some d else find k attributes)
    first true = refl
    first false = refl

-- A value that is valid with what is left of a shared budget is valid with a budget of its own.
alone :
    (d : AttributeDefinition) (value : AttributeValue) (left l : ℕ)
    → left ≤ 4096
    → or_invalid (valid value d 0 left) ≡ ok l
    → (is_valid d value ≡ true) × (l ≤ 4096)
unfolding is_valid
alone d value left l le h =
    let found : valid value d 0 left ≡ some l = or_invalid_inv (valid value d 0 left) l h in
    let more : valid value d 0 (left + (4096 - left)) ≡ some (l + (4096 - left)) =
      (valid-More value d 0).same left (4096 - left) l found in
    let whole : left + (4096 - left) ≡ 4096 = omega (arith, le) in
    (
      ap (λ o. is_some o) (ap (λ n. valid value d 0 n) (sym whole) ∙ more),
      omega (arith, le, (valid-More value d 0).less left l found),
    )
  where
    or_invalid_inv : (o : Option ℕ) (l : ℕ) → or_invalid o ≡ ok l → o ≡ some l
    or_invalid_inv none l h = cc
    or_invalid_inv (some m) l h = cc

validate_attributes-valid :
    (attributes : Map AttributeDefinition) (remaining left : ℕ) {t : Unit {0}}
    → left ≤ 4096
    → validate_attributes attributes remaining left ≡ ok t
    → (k : Bytes) (d : AttributeDefinition) → find k attributes ≡ some d
    → is_valid d (head d).initial ≡ true
unfolding validate_attributes find
validate_attributes-valid [] remaining left le h k d found = cc
validate_attributes-valid ((name, c) ∷ attributes) remaining left le h k d found =
    let (r, _, h1) = >>=-eq-ok (definition_valid c 0 remaining) _ h in
    let (_, h2) =
      throw_if-eq-ok (not (name_valid name) || ltb_ℤ (head c).maximum (head c).minimum) _ _ h1 in
    let (l, v, h3) = >>=-eq-ok (or_invalid (valid (head c).initial c 0 left)) _ h2 in
    let (_, h4) =
      throw_if-eq-ok (not (is_none (head c).visibility) && not (reads (head c).client)) _ _ h3 in
    let (good, less) = alone c (head c).initial left l le v in
    elim (Bool-cases (text_eq name k)) [
      | inl e ↦
          let same : c ≡ d =
            some_inj (sym (ap (λ b. if b then some c else find k attributes) e) ∙ found) in
          subst (λ x. is_valid x (head x).initial ≡ true) same good
      | inr e ↦
          validate_attributes-valid attributes r l less h4 k d
            (sym (ap (λ b. if b then some c else find k attributes) e) ∙ found)
    ]
  where
    some_inj : {c d : AttributeDefinition} → some c ≡ some d → c ≡ d
    some_inj h = cc

pub create-IsSound :
    (schema : EntitySchema) (owner : Bytes) (e : EntityAttributes)
    → IsSorted schema.attributes
    → create schema owner ≡ ok e
    → IsSound e
unfolding create validate find
create-IsSound schema owner e sorted h =
    let (_, checked, made) = >>=-eq-ok (validate schema) _ h in
    let (_, loops) =
      throw_if-eq-ok (ltb 256 (length schema.attributes) || ltb 256 (length schema.methods)) _ _
        checked in
    let (_, valid_all, _) = >>=-eq-ok (validate_attributes schema.attributes 4096 4096) _ loops in
    subst (λ x. IsSound x) (ok-injective made)
      (record {
        entries = record {
          at_key = λ k d found. record {
            value = (head d).initial;
            stored = find-initial_values k schema.attributes [] ∙ ap with_initial found;
            good =
                validate_attributes-valid schema.attributes 4096 4096 (omega arith) valid_all k d
                  found;
            version = 0;
            versioned = find-all_modified k 0 schema.attributes [] ∙ ap (with_version 0) found;
            bound = omega arith;
          };
        };
        sorted = sorted;
      })

-- ===== src/EntitySchema/Restored.antt =====
-- `restore` and `restore_full` of src/entity_schema.cpp: the restored state is well formed.
use fsnet.Base.{
  ℕ, Bool, true, false, not, ◌||◌, Bytes, [], ◌∷◌, some, if◌then◌else◌, ◌≡◌, refl, sym, ap, ◌∙◌,
  arith, inl, inr,
}
use fsnet.Base.Errors.{ok, >>=-eq-ok, ok-injective, throw_if-eq-ok, ok-subst}
use fsnet.Base.Maps.{Map, find, insert_or_assign, find-insert_or_assign}
use fsnet.Base.Tests.{Bool-cases}
use fsnet.Base.Texts.{text_eq, text_eq→eq}
use fsnet.Attribute.{AttributeValue, AttributeStruct}
use fsnet.EntitySchema.{AttributeDefinition}
use fsnet.EntitySchema.Carrier.{
  EntityAttributes, at, is_valid, restore_values, set_versions, restore_with,
}
use fsnet.EntitySchema.Collected.{at-find}
use fsnet.EntitySchema.Sound.{IsSound}
use mathlib.Core.Path.{subst}

-- Each attribute has a valid value.
record Valued (attributes : Map AttributeDefinition) (values : AttributeStruct) : Type 0 where
  pub at_key :
      (k : Bytes) (d : AttributeDefinition)
      → find k attributes ≡ some d
      → (value : AttributeValue) × (find k values ≡ some value) × (is_valid d value ≡ true)

restore_values-Valued :
    (allowed : AttributeDefinition → Bool) (attributes : Map AttributeDefinition)
    (values next result : AttributeStruct)
    → Valued attributes next
    → restore_values allowed attributes values next ≡ ok result
    → Valued attributes result
unfolding restore_values
restore_values-Valued allowed attributes [] next result v h =
    ok-subst (λ x. Valued attributes x) h v
restore_values-Valued allowed attributes ((name, value) ∷ values) next result v h =
    let (d, found, h1) = >>=-eq-ok (at name attributes) _ h in
    let (good, h2) = throw_if-eq-ok (not (allowed d) || not (is_valid d value)) _ _ h1 in
    let (old, _, h3) = >>=-eq-ok (at name next) _ h2 in
    restore_values-Valued allowed attributes values (insert_or_assign name value next) result
      (record {
        at_key = λ k c f. elim (Bool-cases (text_eq name k)) [
          | inl e ↦
              let same : d ≡ c = some_inj (
                sym (at-find name attributes d found)
                ∙ ap (λ x. find x attributes) (text_eq→eq name k e)
                ∙ f) in
              (
                value,
                find-insert_or_assign k name value next
                    ∙ ap (λ b. if b then some value else find k next) e,
                subst (λ x. is_valid x value ≡ true) same
                    (second (allowed d) (is_valid d value) good),
              )
          | inr e ↦
              let (w, stored, ok_value) = v.at_key k c f in
              (
                w,
                find-insert_or_assign k name value next
                    ∙ ap (λ b. if b then some value else find k next) e
                    ∙ stored,
                ok_value,
              )
        ];
      })
      h3
  where
    some_inj : {c d : AttributeDefinition} → some c ≡ some d → c ≡ d
    some_inj h = cc

    second : (a b : Bool) → (not a || not b) ≡ false → b ≡ true
    second true true h = refl
    second true false h = cc
    second false b h = cc

find-set_versions :
    (k : Bytes) (revision version : ℕ) (modified : Map ℕ)
    → find k modified ≡ some version
    → find k (set_versions revision modified) ≡ some revision
unfolding set_versions find
find-set_versions k revision version [] h = cc
find-set_versions k revision version ((name, old) ∷ modified) h =
    elim (Bool-cases (text_eq name k)) [
      | inl e ↦ ap (λ b. if b then some revision else find k (set_versions revision modified)) e
      | inr e ↦
          ap (λ b. if b then some revision else find k (set_versions revision modified)) e
          ∙ find-set_versions k revision version modified
              (sym (ap (λ b. if b then some old else find k modified) e) ∙ h)
    ]

pub restore-IsSound :
    (allowed : AttributeDefinition → Bool) (values : AttributeStruct) (revision : ℕ)
    (e e2 : EntityAttributes)
    → IsSound e
    → restore_with allowed values revision e ≡ ok e2
    → IsSound e2
unfolding restore_with
restore-IsSound allowed values revision e e2 sound h =
    let (next, restored, made) =
      >>=-eq-ok (restore_values allowed e.schema.attributes values e.values) _ h in
    let v =
      restore_values-Valued allowed e.schema.attributes values e.values next
        (record {
          at_key = λ k d f. let x = sound.entries.at_key k d f in (x.value, x.stored, x.good);
        })
        restored in
    subst (λ x. IsSound x) (ok-injective made)
      (record {
        entries = record {
          at_key = λ k d f.
              let x = sound.entries.at_key k d f in
              let (value, stored, good) = v.at_key k d f in
              record {
                value = value;
                stored = stored;
                good = good;
                version = revision;
                versioned = find-set_versions k revision x.version e.modified x.versioned;
                bound = omega arith;
              };
        };
        sorted = sound.sorted;
      })

-- ===== src/EntitySchema/Sound.antt =====
-- The state of EntityAttributes of src/entity_schema.cpp: each attribute of the schema has a valid
-- value and a version that is not above the revision. `publish` and the restores keep to that.
use fsnet.Base.{
  ℕ, ◌≤◌, Bool, true, false, not, Bytes, [], ◌∷◌, some, if◌then◌else◌, ◌≡◌, refl, sym, ap, ◌∙◌,
  arith, inl, inr, is_some,
}
use fsnet.Base.Errors.{ok-subst, ok, >>=-eq-ok, throw_if-eq-ok}
use fsnet.Base.Maps.{Map, find, insert_or_assign, find-insert_or_assign, IsSorted}
use fsnet.Base.Tests.{Bool-cases}
use fsnet.Base.Texts.{text_lt, text_eq, text_eq→eq}
use fsnet.Attribute.{AttributeValue, AttributeStruct}
use fsnet.Attribute.Equality.{value_eq}
use fsnet.EntitySchema.{AttributeDefinition}
use fsnet.EntitySchema.Carrier.{EntityAttributes, at, add, is_valid, check_values, prepare, commit}
use fsnet.EntitySchema.Collected.{at-find}
use mathlib.Core.Path.{subst}

pub record KeyState (limit : ℕ) (s : AttributeStruct × Map ℕ) (k : Bytes) (d : AttributeDefinition)
    : Type 0 where
  pub value : AttributeValue
  pub stored : find k s.0 ≡ some value
  pub good : is_valid d value ≡ true
  pub version : ℕ
  pub versioned : find k s.1 ≡ some version
  pub bound : version ≤ limit

pub record Good (attributes : Map AttributeDefinition) (limit : ℕ) (s : AttributeStruct × Map ℕ)
    : Type 0 where
  pub at_key :
      (k : Bytes) (d : AttributeDefinition) → find k attributes ≡ some d → KeyState limit s k d

pub record IsSound (e : EntityAttributes) : Type 0 where
  pub entries : Good e.schema.attributes e.revision (e.values, e.modified)
  pub sorted : IsSorted e.schema.attributes

-- Values that are valid for the attributes that they are meant for.
abbrev pub AllValid : Map AttributeDefinition → AttributeStruct → Type 0
AllValid attributes [] = Unit
AllValid attributes ((name, value) ∷ values) =
    ((d : AttributeDefinition) → find name attributes ≡ some d → is_valid d value ≡ true)
    × AllValid attributes values

not-false : (b : Bool) → not b ≡ false → b ≡ true
not-false true h = refl
not-false false h = cc

pub check_values-AllValid :
    (attributes : Map AttributeDefinition) (values : AttributeStruct) {t : Unit {0}}
    → check_values attributes values ≡ ok t
    → AllValid attributes values
unfolding check_values
check_values-AllValid attributes [] h = tt
check_values-AllValid attributes ((name, value) ∷ values) h =
    let (d, found, k) = >>=-eq-ok (at name attributes) _ h in
    let (good, more) = throw_if-eq-ok (not (is_valid d value)) _ _ k in
    (
      λ c e. valid_same d c value (sym (at-find name attributes d found) ∙ e) good,
      check_values-AllValid attributes values more,
    )
  where
    valid_same :
        (d c : AttributeDefinition) (value : AttributeValue)
        → some d ≡ some c
        → not (is_valid d value) ≡ false
        → is_valid c value ≡ true
    valid_same d c value e h =
        let same : d ≡ c = cc in
        let good : is_valid d value ≡ true = not-false (is_valid d value) h in
        subst (λ x. is_valid x value ≡ true) same good

insert-AllValid :
    (attributes : Map AttributeDefinition) (name : Bytes) (value : AttributeValue)
    (values : AttributeStruct)
    → ((d : AttributeDefinition) → find name attributes ≡ some d → is_valid d value ≡ true)
    → AllValid attributes values
    → AllValid attributes (insert_or_assign name value values)
unfolding insert_or_assign
insert-AllValid attributes name value [] h v = (h, tt)
insert-AllValid attributes name value ((j, other) ∷ values) h v =
    elim (Bool-cases (text_eq j name)) [
      | inl e ↦ rw e ((λ d f. h d (rw (text_eq→eq j name e) at f)), v.1)
      | inr e ↦ elim (Bool-cases (text_lt name j)) [
        | inl l ↦ rw (e, l) (h, v)
        | inr l ↦ rw (e, l) (v.0, insert-AllValid attributes name value values h v.1)
      ]
    ]

pub prepare-AllValid :
    (attributes : Map AttributeDefinition) (current values prepared out : AttributeStruct)
    → AllValid attributes values
    → AllValid attributes prepared
    → prepare current values prepared ≡ ok out
    → AllValid attributes out
unfolding prepare add
prepare-AllValid attributes current [] prepared out v p h =
    ok-subst (λ x. AllValid attributes x) h p
prepare-AllValid attributes current ((name, value) ∷ values) prepared out v p h =
    let (old, found, k) = >>=-eq-ok (at name current) _ h in
    prepare-AllValid attributes current values _ out v.1
      (kept (value_eq old value) (is_some (find name prepared))) k
  where
    kept :
        (same new : Bool)
        → AllValid attributes (
            if not same
            then (if new then prepared else insert_or_assign name value prepared)
            else prepared)
    kept true new = p
    kept false true = p
    kept false false = insert-AllValid attributes name value prepared v.0 p

pub commit-Good :
    (attributes : Map AttributeDefinition) (version : ℕ) (prepared : AttributeStruct)
    (s : AttributeStruct × Map ℕ)
    → AllValid attributes prepared
    → Good attributes version s
    → Good attributes version (commit version prepared s)
unfolding commit
commit-Good attributes version [] s v g = g
commit-Good attributes version ((name, value) ∷ prepared) s v g =
    commit-Good attributes version prepared
      (insert_or_assign name value s.0, insert_or_assign name version s.1) v.1
      (record {
        at_key = λ k d f. elim (Bool-cases (text_eq name k)) [
          | inl e ↦ record {
            value = value;
            stored =
                find-insert_or_assign k name value s.0
                ∙ ap (λ b. if b then some value else find k s.0) e;
            good = v.0 d (rw (text_eq→eq name k e) f);
            version = version;
            versioned =
                find-insert_or_assign k name version s.1
                ∙ ap (λ b. if b then some version else find k s.1) e;
            bound = omega arith;
          }
          | inr e ↦
              let c = g.at_key k d f in
              record {
                value = c.value;
                stored =
                    find-insert_or_assign k name value s.0
                    ∙ ap (λ b. if b then some value else find k s.0) e
                    ∙ c.stored;
                good = c.good;
                version = c.version;
                versioned =
                    find-insert_or_assign k name version s.1
                    ∙ ap (λ b. if b then some version else find k s.1) e
                    ∙ c.versioned;
                bound = c.bound;
              }
        ];
      })

pub Good-later :
    (attributes : Map AttributeDefinition) (limit later : ℕ) (s : AttributeStruct × Map ℕ)
    → limit ≤ later
    → Good attributes limit s
    → Good attributes later s
Good-later attributes limit later s le g = record {
  at_key = λ k d f.
      let c = g.at_key k d f in
      record {
        value = c.value;
        stored = c.stored;
        good = c.good;
        version = c.version;
        versioned = c.versioned;
        bound = omega (arith, c.bound, le);
      };
}

-- ===== src/EntitySchema/Staged.antt =====
-- A mutation that `stage` of src/entity_schema.cpp has accepted is published.
use fsnet.Base.{
  ◌<◌, ◌+◌, ◌-◌, ◌^◌, ltb, length, Bool, true, false, not, Bytes, [], ◌∷◌, if◌then◌else◌, ◌≡◌, refl,
  ap, ◌∙◌, arith, is_empty,
}
use fsnet.Base.Errors.{ok, ◌>>=◌, >>=-eq-ok, ok-subst, throw_if-eq-ok}
use fsnet.Base.Maps.{Map, find, IsSorted}
use fsnet.Base.Tests.{==_refl, ==_false}
use fsnet.Attribute.{AttributeStruct}
use fsnet.EntitySchema.{AttributeDefinition, CallIdentity, head, for_caller}
use fsnet.EntitySchema.Carrier.{
  EntityAttributes, Mutation, at, is_valid, denied, stage, stage_values, check_values, prepare,
  publish,
}
use fsnet.EntitySchema.Collected.{at-find, or_found}
use fsnet.EntitySchema.Definition.{writes}
use fsnet.EntitySchema.Prepared.{differing, find-prepare, prepare-IsSorted, find-commit}
use fsnet.EntitySchema.Publish.{committed}
use fsnet.EntitySchema.Sound.{IsSound}
use fsnet.EntitySchema.Total.{at_ok}

-- The tests of `stage` include those of `publish`.
stage_values-check_values :
    (who : CallIdentity) (attributes : Map AttributeDefinition) (values : AttributeStruct)
    → stage_values who attributes values ≡ ok tt
    → check_values attributes values ≡ ok tt
unfolding stage_values check_values
stage_values-check_values who attributes [] h = refl
stage_values-check_values who attributes ((name, value) ∷ values) h =
    let (d, found, h1) = >>=-eq-ok (at name attributes) _ h in
    let (_, h2) =
      throw_if-eq-ok (not (writes (for_caller who.caller (head d).server (head d).client))) _ _
        h1 in
    let (good, h3) = throw_if-eq-ok (not (is_valid d value)) _ _ h2 in
    rw (found, ◌>>=◌, good) (stage_values-check_values who attributes values h3)

prepare_total :
    (who : CallIdentity) (e : EntityAttributes) (values prepared : AttributeStruct)
    → IsSound e
    → stage_values who e.schema.attributes values ≡ ok tt
    → (out : AttributeStruct) × (prepare e.values values prepared ≡ ok out)
unfolding stage_values prepare
prepare_total who e [] prepared sound h = (prepared, refl)
prepare_total who e ((name, value) ∷ values) prepared sound h =
    let (d, found, h1) = >>=-eq-ok (at name e.schema.attributes) _ h in
    let (_, h2) =
      throw_if-eq-ok (not (writes (for_caller who.caller (head d).server (head d).client))) _ _
        h1 in
    let (_, h3) = throw_if-eq-ok (not (is_valid d value)) _ _ h2 in
    let c = sound.entries.at_key name d (at-find name e.schema.attributes d found) in
    rw (at_ok name e.values c.value c.stored, ◌>>=◌) (prepare_total who e values _ sound h3)

-- What a commit of the values that differ leaves at a key.
committed_values :
    (k : Bytes) (e : EntityAttributes) (values prepared : AttributeStruct) (b : Bool)
    → is_empty prepared ≡ b
    → IsSorted values
    → prepare e.values values [] ≡ ok prepared
    → find k (if b then e else committed prepared e).values
      ≡ or_found (differing (find k values) (find k e.values)) (find k e.values)
unfolding find
committed_values k e values [] true empty sorted h =
    ap (λ o. or_found o (find k e.values)) (find-prepare k e.values values [] [] sorted h)
committed_values k e values (x ∷ prepared) true empty sorted h = cc
committed_values k e values prepared false empty sorted h =
    find-commit k (e.revision + 1) prepared (e.values, e.modified)
      (prepare-IsSorted e.values values [] prepared tt h)
    ∙ ap (λ o. or_found o (find k e.values)) (find-prepare k e.values values [] prepared sorted h)

-- A mutation that `stage` returned on a well-formed state is published in that state, unless the
-- revision is at its maximum: `publish` throws nothing and returns true. Afterwards each key has
-- the value of the mutation where it differs from the old one, and the old one elsewhere. The
-- values are in key order, as those of a std::map are.
pub publish-stage :
    (values : AttributeStruct) (who : CallIdentity) (e : EntityAttributes) (mutation : Mutation)
    → IsSound e
    → IsSorted values
    → e.revision < 2 ^ 64 - 1
    → stage values who e ≡ ok mutation
    → (e2 : EntityAttributes) × (publish mutation e ≡ ok (true, e2))
      × ((k : Bytes)
          → find k e2.values
            ≡ or_found (differing (find k values) (find k e.values)) (find k e.values))
unfolding stage publish
publish-stage values who e mutation sound sorted small h =
    let (_, h1) = throw_if-eq-ok (ltb (length e.schema.attributes) (length values)) _ _ h in
    let (_, h2) = throw_if-eq-ok (denied who e.owner) _ _ h1 in
    let (_, staged, h3) = >>=-eq-ok (stage_values who e.schema.attributes values) _ h2 in
    let (prepared, ready) = prepare_total who e values [] sound staged in
    let checked = stage_values-check_values who e.schema.attributes values staged in
    ok-subst
      (λ m.
        (e2 : EntityAttributes) × (publish m e ≡ ok (true, e2))
        × ((k : Bytes)
            → find k e2.values
              ≡ or_found (differing (find k values) (find k e.values)) (find k e.values)))
      h3
      (
        (if is_empty prepared then e else committed prepared e),
        rw
            (
              ==_refl e.revision,
              ==_false e.revision (2 ^ 64 - 1) (λ same. omega (arith, small, same)),
              checked,
              ◌>>=◌,
              ready,
            )
            refl,
        λ k. committed_values k e values prepared (is_empty prepared) refl sorted ready,
      )

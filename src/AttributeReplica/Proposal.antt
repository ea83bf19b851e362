-- ===== src/AttributeReplica/Proposal.antt =====
-- `stage_attribute_proposal` of src/attribute_wire.cpp: how the server stages what a client proposes.
use fsnet.Base.{
  ltb, length, arith, ◌-◌, ◌^◌, ◌==◌, ◌||◌, not, List, [], ◌∷◌, if◌then◌else◌, ◌≡◌, ap, inl, inr,
  is_empty,
}
use fsnet.Base.Errors.{
  Outcome, ok, ◌>>=◌, ◌>>◌, throw_if, invalid_argument, >>=-eq-ok, throw_if-eq-ok, ok-injective,
}
use fsnet.Base.Tests.{Bool-cases}
use fsnet.Attribute.{AttributeStruct}
use fsnet.AttributeReplica.Apply.{empty_replica, apply, values, image_with}
use fsnet.AttributeUpdate.{AttributePatch, AttributeUpdate}
use fsnet.AttributeUpdate.Encode.{attribute_wire_size}
use fsnet.EntitySchema.{CallIdentity}
use fsnet.EntitySchema.Carrier.{EntityAttributes, Mutation, at, add, stage, denied, stage_values}
use mathlib.Core.Path.{subst}

-- `roots.try_emplace(patch.property, model.all_values().at(patch.property))` for each patch
unfoldable pub add_roots :
    AttributeStruct → List AttributePatch → AttributeStruct → Outcome AttributeStruct
unfolding at add
add_roots all_values [] roots = ok roots
add_roots all_values (patch ∷ patches) roots = do
  value ← at patch.property all_values
  add_roots all_values patches (add patch.property value roots)

-- `value=candidate.values().at(name)` for each root
unfoldable pub resolve : AttributeStruct → AttributeStruct → Outcome AttributeStruct
unfolding at
resolve candidate [] = ok []
resolve candidate ((name, old) ∷ roots) = do
  value ← at name candidate
  rest ← resolve candidate roots
  ok ((name, value) ∷ rest)

-- What follows where the proposal has patches.
unfoldable pub stage_patched : EntityAttributes → AttributeUpdate → CallIdentity → Outcome Mutation
unfolding add_roots resolve values
stage_patched model proposal who = do
  roots ← add_roots model.values proposal.patches proposal.values
  allowed ← stage roots who model
  first ← apply (2 ^ 64 - 1) (image_with model.revision model.values) empty_replica
  second ← apply (2 ^ 64 - 1) proposal first.1
  throw_if (not second.0) invalid_argument
  final ← resolve (values second.1) roots
  stage final who model

unfoldable pub stage_attribute_proposal :
    EntityAttributes → AttributeUpdate → CallIdentity → Outcome Mutation
unfolding stage_patched
stage_attribute_proposal model proposal who = do
  size ← attribute_wire_size proposal
  throw_if
      (proposal.snapshot
        || not (proposal.base == model.revision)
        || not (proposal.revision == proposal.base))
      invalid_argument
  (if is_empty proposal.patches
      then stage proposal.values who model
      else stage_patched model proposal who)

stage_inv :
    (roots : AttributeStruct) (who : CallIdentity) (model : EntityAttributes) (mutation : Mutation)
    → stage roots who model ≡ ok mutation
    → stage mutation.values who model ≡ ok mutation
unfolding stage
stage_inv roots who model mutation h =
    let (_, h1) = throw_if-eq-ok (ltb (length model.schema.attributes) (length roots)) _ _ h in
    let (_, h2) = throw_if-eq-ok (denied who model.owner) _ _ h1 in
    let (_, _, h3) = >>=-eq-ok (stage_values who model.schema.attributes roots) _ h2 in
    subst (λ (v : AttributeStruct). stage v who model ≡ ok mutation)
      (ap (λ (m : Mutation). m.values) (ok-injective h3)) h

-- A proposal never gives a mutation that `stage` would refuse of the same caller: a path into a value
-- cannot go round the permissions of its root, nor the definition that the final value must fit.
-- It gives one only in the revision that it was made for.
pub stage_attribute_proposal-stage :
    (model : EntityAttributes) (proposal : AttributeUpdate) (who : CallIdentity)
    (mutation : Mutation)
    → stage_attribute_proposal model proposal who ≡ ok mutation
    → (stage mutation.values who model ≡ ok mutation) × (proposal.base ≡ model.revision)
unfolding stage_attribute_proposal
stage_attribute_proposal-stage model proposal who mutation h =
    let (size, _, h1) = >>=-eq-ok (attribute_wire_size proposal) _ h in
    let (good, h2) =
      throw_if-eq-ok
        (proposal.snapshot
          || not (proposal.base == model.revision)
          || not (proposal.revision == proposal.base))
        _ _ h1 in
    (
      elim (Bool-cases (is_empty proposal.patches)) [
        | inl none_left ↦ stage_inv proposal.values who model mutation (rw none_left at h2)
        | inr some_patch ↦ patched (rw some_patch at h2)
      ],
      ground (arith, good),
    )
  where
    patched :
        stage_patched model proposal who ≡ ok mutation
        → stage mutation.values who model ≡ ok mutation
    patched k =
        let (roots, _, k1) =
          >>=-eq-ok (add_roots model.values proposal.patches proposal.values) _ k in
        let (allowed, _, k2) = >>=-eq-ok (stage roots who model) _ k1 in
        let (first, _, k3) =
          >>=-eq-ok (apply (2 ^ 64 - 1) (image_with model.revision model.values) empty_replica) _
            k2 in
        let (second, _, k4) = >>=-eq-ok (apply (2 ^ 64 - 1) proposal first.1) _ k3 in
        let (_, k5) = throw_if-eq-ok (not second.0) _ _ k4 in
        let (final, _, k6) = >>=-eq-ok (resolve (values second.1) roots) _ k5 in
        stage_inv final who model mutation k6

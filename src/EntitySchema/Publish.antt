-- ===== src/EntitySchema/Publish.antt =====
-- What `EntityAttributes::publish` of src/entity_schema.cpp does to the state.
use fsnet.Base.{
  ◌+◌, ◌-◌, ◌==◌, ◌^◌, Bool, true, false, [], if◌then◌else◌, ◌≡◌, sym, ap, arith, inl, inr, ◌⊎◌,
  is_empty,
}
use fsnet.Base.Errors.{ok, >>=-eq-ok, ok-injective, throw_if-eq-ok}
use fsnet.Base.Tests.{Bool-cases}
use fsnet.Attribute.{AttributeStruct}
use fsnet.EntitySchema.Carrier.{EntityAttributes, Mutation, check_values, prepare, commit, publish}
use fsnet.EntitySchema.Sound.{
  IsSound, AllValid, check_values-AllValid, prepare-AllValid, commit-Good, Good-later,
}
use mathlib.Core.Path.{subst}

-- The state after a commit of the values that differ.
abbrev pub committed : AttributeStruct → EntityAttributes → EntityAttributes
committed prepared e =
    let s = commit (e.revision + 1) prepared (e.values, e.modified) in
    record e { values = s.0; revision = e.revision + 1; modified = s.1 }

-- Either nothing has changed, or valid values have been committed.
pub record Commits (e e2 : EntityAttributes) : Type 0 where
  pub prepared : AttributeStruct
  pub good : AllValid e.schema.attributes prepared
  pub after : e2 ≡ committed prepared e

pub publish_inv :
    (mutation : Mutation) (e e2 : EntityAttributes) (done : Bool)
    → publish mutation e ≡ ok (done, e2)
    → (e2 ≡ e) ⊎ Commits e e2
unfolding publish
publish_inv mutation e e2 done h = elim (Bool-cases (mutation.expected == e.revision)) [
  | inr stale ↦ inl (sym (ap (λ (x : Bool × EntityAttributes). x.1) (ok-injective (rw stale at h))))
  | inl fresh ↦
      let (left, k) = throw_if-eq-ok (e.revision == 2 ^ 64 - 1) _ _ (rw fresh at h) in
      let (t, checked, l) = >>=-eq-ok (check_values e.schema.attributes mutation.values) _ k in
      let (prepared, differ, m) = >>=-eq-ok (prepare e.values mutation.values []) _ l in
      let good =
        prepare-AllValid e.schema.attributes e.values mutation.values [] prepared
          (check_values-AllValid e.schema.attributes mutation.values checked) tt differ in
      by_empty prepared good (is_empty prepared)
        (ap (λ (x : Bool × EntityAttributes). x.1) (ok-injective m))
]
  where
    by_empty :
        (prepared : AttributeStruct)
        → AllValid e.schema.attributes prepared
        → (b : Bool) → (if b then e else committed prepared e) ≡ e2
        → (e2 ≡ e) ⊎ Commits e e2
    by_empty prepared good true same = inl (sym same)
    by_empty prepared good false same =
        inr (record { prepared = prepared; good = good; after = sym same })

-- `publish` keeps the state well formed, whatever the mutation is: each attribute has a valid value
-- and a version that is not above the revision.
pub publish-IsSound :
    (mutation : Mutation) (e e2 : EntityAttributes) (done : Bool)
    → IsSound e
    → publish mutation e ≡ ok (done, e2)
    → IsSound e2
publish-IsSound mutation e e2 done sound h = elim (publish_inv mutation e e2 done h) [
  | inl same ↦ subst (λ x. IsSound x) (sym same) sound
  | inr c ↦
      subst (λ x. IsSound x) (sym c.after)
        (record {
          entries =
              commit-Good e.schema.attributes (e.revision + 1) c.prepared (e.values, e.modified)
                c.good
                (Good-later e.schema.attributes e.revision (e.revision + 1) (e.values, e.modified)
                  (omega arith) sound.entries);
          sorted = sound.sorted;
        })
]

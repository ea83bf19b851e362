-- ===== src/EntitySchema/Shown.antt =====
-- What `snapshot` and `changes` of src/entity_schema.cpp return, as sets of keys and values.
use fsnet.Base.{ℕ, ◌≤◌, ltb, Bool, ◌&&◌, Bytes, [], ◌∷◌, ◌≡◌, sym, ap, ◌∙◌, inl, inr, is_some}
use fsnet.Base.Errors.{ok-subst, ok, >>=-eq-ok, ok-injective}
use fsnet.Base.Maps.{Map, find, IsSorted, insert_or_assign-IsSorted}
use fsnet.Base.Tests.{le→ltb_false, Bool-cases}
use fsnet.Attribute.{AttributeStruct, AttributeValue}
use fsnet.AttributeUpdate.{AttributeUpdate}
use fsnet.Connection.{matches_key}
use fsnet.EntitySchema.{AttributeDefinition, AttributeView}
use fsnet.EntitySchema.Carrier.{EntityAttributes, at, add}
use fsnet.EntitySchema.Collected.{Collected, collect-Collected, collect_changes-Collected, newer}
use fsnet.EntitySchema.Views.{snapshot, changes, collect, collect_changes, visible}
use mathlib.Core.Path.{subst}

pub add-IsSorted :
    (name : Bytes) (value : AttributeValue) (out : AttributeStruct)
    → IsSorted out
    → IsSorted (add name value out)
unfolding add
add-IsSorted name value out h = elim (Bool-cases (is_some (find name out))) [
  | inl e ↦ rw e h
  | inr e ↦ rw e (insert_or_assign-IsSorted name value out h)
]

collect_changes-IsSorted :
    (since : ℕ) (modified : Map ℕ) (wanted : AttributeDefinition → Bool) (values : AttributeStruct)
    (attributes : Map AttributeDefinition) (out result : AttributeStruct)
    → IsSorted out
    → collect_changes since modified wanted values attributes out ≡ ok result
    → IsSorted result
unfolding collect_changes
collect_changes-IsSorted since modified wanted values [] out result sorted h =
    ok-subst (λ x. IsSorted x) h sorted
collect_changes-IsSorted since modified wanted values ((name, d) ∷ attributes) out result sorted h =
    elim (Bool-cases (wanted d)) [
      | inr e ↦
          collect_changes-IsSorted since modified wanted values attributes out result sorted
            (rw (e, collect_changes) at h)
      | inl e ↦
          let (version, found, more) =
            >>=-eq-ok (at name modified) _ (rw (e, collect_changes) at h) in
          elim (Bool-cases (ltb since version)) [
            | inr old ↦
                collect_changes-IsSorted since modified wanted values attributes out result sorted
                  (rw (old, collect_changes) at more)
            | inl new ↦
                let (value, stored, last) =
                  >>=-eq-ok (at name values) _ (rw (new, collect_changes) at more) in
                collect_changes-IsSorted since modified wanted values attributes
                  (add name value out) result (add-IsSorted name value out sorted) last
          ]
    ]

abbrev pub seen_by : AttributeView → Bytes → AttributeDefinition → Bool
seen_by view owner d = visible d (matches_key view.connection owner) view.observer

pub snapshot_inv :
    (view : AttributeView) (e : EntityAttributes) (u : AttributeUpdate)
    (attributes : Map AttributeDefinition) (owner : Bytes)
    → IsSorted attributes
    → e.schema.attributes ≡ attributes
    → e.owner ≡ owner
    → snapshot view e ≡ ok u
    → (u.revision ≡ e.revision)
      × Collected (λ k d. seen_by view owner d) e.values attributes [] u.values
unfolding snapshot
snapshot_inv view e u attributes owner sorted same mine h =
    let (values, c, k) =
      >>=-eq-ok (collect (seen_by view e.owner) e.values e.schema.attributes []) _ h in
    let c2 : collect (seen_by view owner) e.values attributes [] ≡ ok values = ap2 mine same c in
    (
      ap (λ (x : AttributeUpdate). x.revision) (sym (ok-injective k)),
      subst
          (λ (x : AttributeUpdate).
            Collected (λ k d. seen_by view owner d) e.values attributes [] x.values)
          (ok-injective k)
          (collect-Collected (seen_by view owner) e.values attributes [] values sorted c2),
    )
  where
    ap2 :
        {values : AttributeStruct}
        → e.owner ≡ owner
        → e.schema.attributes ≡ attributes
        → collect (seen_by view e.owner) e.values e.schema.attributes [] ≡ ok values
        → collect (seen_by view owner) e.values attributes [] ≡ ok values
    ap2 p q c =
        sym (
          ap (λ x. collect (seen_by view x) e.values e.schema.attributes []) p
          ∙ ap (λ x. collect (seen_by view owner) e.values x []) q)
        ∙ c

pub changes_inv :
    (since : ℕ) (view : AttributeView) (e : EntityAttributes) (u : AttributeUpdate)
    (attributes : Map AttributeDefinition) (owner : Bytes)
    → since ≤ e.revision
    → IsSorted attributes
    → e.schema.attributes ≡ attributes
    → e.owner ≡ owner
    → changes since view e ≡ ok u
    → (u.base ≡ since)
      × (u.revision ≡ e.revision)
      × IsSorted u.values
      × Collected
          (λ k d. seen_by view owner d && newer since (find k e.modified))
          e.values
          attributes
          []
          u.values
unfolding changes
changes_inv since view e u attributes owner le sorted same mine h =
    let (values, c, k) =
      >>=-eq-ok
        (collect_changes since e.modified (seen_by view e.owner) e.values e.schema.attributes []) _
        (rw (le→ltb_false e.revision since le) at h) in
    let c2 = ap2 mine same c in
    (
      ap (λ (x : AttributeUpdate). x.base) (sym (ok-injective k)),
      ap (λ (x : AttributeUpdate). x.revision) (sym (ok-injective k)),
      subst (λ (x : AttributeUpdate). IsSorted x.values) (ok-injective k)
          (collect_changes-IsSorted since e.modified (seen_by view owner) e.values attributes []
            values tt c2),
      subst
          (λ (x : AttributeUpdate).
            Collected (λ k d. seen_by view owner d && newer since (find k e.modified)) e.values
              attributes [] x.values)
          (ok-injective k)
          (collect_changes-Collected since e.modified (seen_by view owner) e.values attributes []
            values sorted c2),
    )
  where
    ap2 :
        {values : AttributeStruct}
        → e.owner ≡ owner
        → e.schema.attributes ≡ attributes
        → collect_changes since e.modified (seen_by view e.owner) e.values e.schema.attributes []
          ≡ ok values
        → collect_changes since e.modified (seen_by view owner) e.values attributes [] ≡ ok values
    ap2 p q c =
        sym (
          ap
            (λ x. collect_changes since e.modified (seen_by view x) e.values e.schema.attributes [])
            p
          ∙ ap (λ x. collect_changes since e.modified (seen_by view owner) e.values x []) q)
        ∙ c

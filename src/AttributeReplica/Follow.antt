-- ===== src/AttributeReplica/Follow.antt =====
-- A replica of src/attribute_wire.cpp that follows the EntityAttributes of src/entity_schema.cpp.
use fsnet.Base.{
  ℕ, ◌≤◌, Bool, true, false, [], if◌then◌else◌, ◌≡◌, refl, sym, ap, ◌∙◌, inl, inr, arith, is_empty,
  Bytes,
}
use fsnet.Base.Errors.{ok, >>=-eq-ok, ok-subst}
use fsnet.Base.Maps.{find}
use fsnet.Base.Tests.{le→ltb_false}
use fsnet.AttributeReplica.{overlay}
use fsnet.AttributeReplica.Apply.{Replica, unfit, apply, values, values_of}
use fsnet.AttributeReplica.Stored.{plain_apply}
use fsnet.AttributeUpdate.{AttributeUpdate}
use fsnet.EntitySchema.{AttributeView}
use fsnet.EntitySchema.Bridge.{overlay-changes}
use fsnet.EntitySchema.Carrier.{EntityAttributes}
use fsnet.EntitySchema.History.{Publishes, Publishes-Follows}
use fsnet.EntitySchema.Sound.{IsSound}
use fsnet.EntitySchema.Views.{snapshot, changes, visible, owned, collect, collect_changes}

snapshot_shape :
    (view : AttributeView) (e : EntityAttributes) (u : AttributeUpdate)
    → snapshot view e ≡ ok u
    → (u.snapshot ≡ true) × (is_empty u.patches ≡ true) × (u.revision ≡ e.revision)
unfolding snapshot
snapshot_shape view e u h =
    let (values, _, k) =
      >>=-eq-ok
        (collect (λ d. visible d (owned view e) view.observer) e.values e.schema.attributes []) _
        h in
    ok-subst (λ x. (x.snapshot ≡ true) × (is_empty x.patches ≡ true) × (x.revision ≡ e.revision)) k
      (refl, refl, refl)

changes_shape :
    (since : ℕ) (view : AttributeView) (e : EntityAttributes) (u : AttributeUpdate)
    → since ≤ e.revision
    → changes since view e ≡ ok u
    → (u.snapshot ≡ false)
      × (is_empty u.patches ≡ true)
      × (u.revision ≡ e.revision)
      × (u.base ≡ since)
unfolding changes
changes_shape since view e u le h =
    let (values, _, k) =
      >>=-eq-ok
        (collect_changes since e.modified (λ d. visible d (owned view e) view.observer) e.values
          e.schema.attributes [])
        _ (rw (le→ltb_false e.revision since le) at h) in
    ok-subst
      (λ x.
        (x.snapshot ≡ false)
        × (is_empty x.patches ≡ true)
        × (x.revision ≡ e.revision)
        × (x.base ≡ since))
      k (refl, refl, refl, refl)

no_fit :
    (u : AttributeUpdate) (r : Replica)
    → u.snapshot ≡ false
    → r.initialized ≡ true
    → u.base ≡ r.revision
    → r.revision ≤ u.revision
    → ¬ (unfit u r ≡ true)
no_fit u r h1 h2 h3 h4 bad = ground (arith, h1, h2, h3, h4, bad)

-- A replica that has applied a snapshot of an entity, and is then given the changes since, takes
-- them: it does not ask for another snapshot, whatever has been published in between, and ends with
-- the values and the revision of the snapshot that it would get now.
pub apply-changes :
    (e g : EntityAttributes) (view : AttributeView) (before delta now : AttributeUpdate)
    (max_image_bytes : ℕ) (r r1 r2 : Replica) (done : Bool)
    → IsSound e
    → Publishes e g
    → snapshot view e ≡ ok before
    → changes e.revision view g ≡ ok delta
    → snapshot view g ≡ ok now
    → apply max_image_bytes before r ≡ ok (true, r1)
    → apply max_image_bytes delta r1 ≡ ok (done, r2)
    → (done ≡ true)
      × ((k : Bytes) → find k (values r2) ≡ find k now.values)
      × (r2.revision ≡ now.revision)
unfolding values
apply-changes e g view before delta now max_image_bytes r r1 r2 done sound run h1 h2 h3 a1 a2 =
    let w = Publishes-Follows e g sound run in
    let (found, base, revision) = overlay-changes e g view before delta now sound run h1 h2 h3 in
    let (whole, p1, v1) = snapshot_shape view e before h1 in
    let (part, p2, v2, b2) = changes_shape e.revision view g delta w.later h2 in
    elim (plain_apply max_image_bytes before r r1 true p1 a1) [
      | inl (refused, _, _) ↦ cc
      | inr (_, _, s1) ↦ elim (plain_apply max_image_bytes delta r1 r2 done p2 a2) [
        | inl (_, _, bad) ↦ absurd (
            no_fit delta r1 part s1.initialized (base ∙ sym s1.revision)
              (omega (arith, w.later, v1, v2, s1.revision)) bad)
        | inr (yes_done, _, s2) ↦ (
          yes_done,
          (λ k.
              ap (λ o. find k (values_of o)) s2.image
              ∙ ap
                  (λ b.
                    find k (if b then delta.values else overlay (values_of r1.image) delta.values))
                  part
              ∙ ap (λ o. find k (overlay (values_of o) delta.values)) s1.image
              ∙ ap
                  (λ b. find k (
                    overlay (if b then before.values else overlay (values_of r.image) before.values)
                      delta.values))
                  whole
              ∙ found k),
          s2.revision ∙ revision,
        )
      ]
    ]

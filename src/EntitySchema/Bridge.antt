-- ===== src/EntitySchema/Bridge.antt =====
-- `EntityAttributes::changes` of src/entity_schema.cpp bridges two snapshots: what a client needs to
-- follow the entity.
use fsnet.Base.{
  ℕ, ◌≤◌, ltb, Bool, ◌&&◌, Bytes, Option, none, some, ◌≡◌, refl, sym, ap, ◌∙◌, arith, inl, inr,
}
use fsnet.Base.Errors.{ok}
use fsnet.Base.Maps.{find}
use fsnet.Base.Tests.{Bool-cases}
use fsnet.Attribute.{AttributeValue}
use fsnet.AttributeReplica.{overlay}
use fsnet.AttributeReplica.Overlay.{find-overlay}
use fsnet.AttributeUpdate.{AttributeUpdate}
use fsnet.EntitySchema.{EntitySchema, AttributeDefinition, AttributeView}
use fsnet.EntitySchema.Carrier.{EntityAttributes}
use fsnet.EntitySchema.Collected.{chosen, or_found, newer}
use fsnet.EntitySchema.History.{Publishes, Publishes-Follows}
use fsnet.EntitySchema.Shown.{seen_by, snapshot_inv, changes_inv}
use fsnet.EntitySchema.Sound.{IsSound}
use fsnet.EntitySchema.Views.{snapshot, changes}

-- One key: what the delta does not hold is as it was.
bridge_key :
    (wanted : AttributeDefinition → Bool) (limit : ℕ) (o : Option AttributeDefinition)
    (old new : Option AttributeValue) (version : Option ℕ)
    → ((d : AttributeDefinition)
        → o ≡ some d
        → (m : ℕ) × (version ≡ some m)
          × (v : AttributeValue) × (new ≡ some v)
          × (m ≤ limit → new ≡ old))
    → or_found (chosen (λ d. wanted d && newer limit version) o new) (chosen wanted o old)
      ≡ chosen wanted o new
bridge_key wanted limit none old new version h = refl
bridge_key wanted limit (some d) old new version h =
    let (m, versioned, v, stored, same) = h d refl in
    elim (Bool-cases (wanted d)) [
      | inr e ↦ rw e refl
      | inl e ↦ elim (Bool-cases (ltb limit m)) [
        | inl l ↦ rw (e, versioned, l, stored) refl
        | inr l ↦ rw (e, versioned, l) (sym (same (ground (arith, l))))
      ]
    ]

-- A client that holds the snapshot of a view, and moves into it what `changes` returns for that
-- view and the revision of the snapshot, holds the values of the snapshot that it would get now:
-- whatever mutations have been published since then, stale and refused ones included. The delta
-- begins at the revision of the old snapshot and leads to that of the new one.
pub overlay-changes :
    (e g : EntityAttributes) (view : AttributeView) (before delta now : AttributeUpdate)
    → IsSound e
    → Publishes e g
    → snapshot view e ≡ ok before
    → changes e.revision view g ≡ ok delta
    → snapshot view g ≡ ok now
    → ((k : Bytes) → find k (overlay before.values delta.values) ≡ find k now.values)
      × (delta.base ≡ before.revision)
      × (delta.revision ≡ now.revision)
unfolding find
overlay-changes e g view before delta now sound run h1 h2 h3 =
    let w = Publishes-Follows e g sound run in
    let same = ap (λ (x : EntitySchema). x.attributes) w.schema in
    let (r1, c1) =
      snapshot_inv view e before e.schema.attributes e.owner sound.sorted refl refl h1 in
    let (r3, c3) =
      snapshot_inv view g now e.schema.attributes e.owner sound.sorted same w.owner h3 in
    let (b2, r2, sorted, c2) =
      changes_inv e.revision view g delta e.schema.attributes e.owner w.later sound.sorted same
        w.owner h2 in
    (
      λ k.
          find-overlay k delta.values before.values sorted
          ∙ ap (λ o. or_found o (find k before.values)) (c2.at_key k)
          ∙ ap
              (λ o.
                or_found
                  (chosen (λ d. seen_by view e.owner d && newer e.revision (find k g.modified))
                    (find k e.schema.attributes) (find k g.values))
                  o)
              (c1.at_key k)
          ∙ bridge_key (seen_by view e.owner) e.revision (find k e.schema.attributes)
              (find k e.values) (find k g.values) (find k g.modified)
              (λ d found.
                let entry = w.sound.entries.at_key k d (ap (find k) same ∙ found) in
                (
                  entry.version,
                  entry.versioned,
                  entry.value,
                  entry.stored,
                  λ le. w.unchanged.at_key k entry.version entry.versioned le,
                ))
          ∙ sym (c3.at_key k),
      b2 ∙ sym r1,
      r2 ∙ sym r3,
    )

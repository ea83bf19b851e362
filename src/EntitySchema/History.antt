-- ===== src/EntitySchema/History.antt =====
-- A run of `publish` calls of src/entity_schema.cpp, and the values that it has left as they were.
use fsnet.Base.{
  ℕ, ◌+◌, ◌≤◌, ◌<◌, Bool, Bytes, [], ◌∷◌, some, if◌then◌else◌, ◌≡◌, refl, sym, ap, ◌∙◌, arith, inl,
  inr,
}
use fsnet.Base.Errors.{ok}
use fsnet.Base.Maps.{Map, find, insert_or_assign, find-insert_or_assign}
use fsnet.Base.Tests.{Bool-cases}
use fsnet.Base.Texts.{text_eq}
use fsnet.Attribute.{AttributeStruct}
use fsnet.EntitySchema.Carrier.{EntityAttributes, Mutation, commit, publish}
use fsnet.EntitySchema.Publish.{publish_inv, publish-IsSound}
use fsnet.EntitySchema.Sound.{IsSound}
use mathlib.Core.Path.{subst}

pub data Publishes (e : EntityAttributes) : EntityAttributes → Type 0 where
  nothing : Publishes e e
  and_then :
      {f g : EntityAttributes}
      → Publishes e f
      → (mutation : Mutation) (done : Bool) → publish mutation f ≡ ok (done, g)
      → Publishes e g

-- Keys whose versions are not above `limit` have the values `old`.
pub record Unchanged (limit : ℕ) (old : AttributeStruct) (s : AttributeStruct × Map ℕ)
    : Type 0 where
  pub at_key :
      (k : Bytes) (version : ℕ)
      → find k s.1 ≡ some version
      → version ≤ limit
      → find k s.0 ≡ find k old

commit-Unchanged :
    (limit version : ℕ) (old prepared : AttributeStruct) (s : AttributeStruct × Map ℕ)
    → limit < version
    → Unchanged limit old s
    → Unchanged limit old (commit version prepared s)
unfolding commit
commit-Unchanged limit version old [] s lt u = u
commit-Unchanged limit version old ((name, value) ∷ prepared) s lt u =
    commit-Unchanged limit version old prepared
      (insert_or_assign name value s.0, insert_or_assign name version s.1) lt
      (record {
        at_key = λ k m found le. elim (Bool-cases (text_eq name k)) [
          | inl e ↦
              let new : some version ≡ some m =
                sym (
                  find-insert_or_assign k name version s.1
                  ∙ ap (λ b. if b then some version else find k s.1) e)
                ∙ found in
              let same : version ≡ m = cc in absurd (omega (arith, lt, le, same))
          | inr e ↦
              let old_version : find k s.1 ≡ some m =
                sym (
                  find-insert_or_assign k name version s.1
                  ∙ ap (λ b. if b then some version else find k s.1) e)
                ∙ found in
              find-insert_or_assign k name value s.0
              ∙ ap (λ b. if b then some value else find k s.0) e
              ∙ u.at_key k m old_version le
        ];
      })

-- What a run of publishes keeps.
pub record Follows (e g : EntityAttributes) : Type 0 where
  pub schema : g.schema ≡ e.schema
  pub owner : g.owner ≡ e.owner
  pub later : e.revision ≤ g.revision
  pub sound : IsSound g
  pub unchanged : Unchanged e.revision e.values (g.values, g.modified)

pub Publishes-Follows : (e g : EntityAttributes) → IsSound e → Publishes e g → Follows e g
Publishes-Follows e _ sound nothing = record {
  schema = refl;
  owner = refl;
  later = omega arith;
  sound = sound;
  unchanged = record { at_key = λ k version found le. refl };
}
Publishes-Follows e g sound (and_then {f = f} run mutation done h) =
    let w = Publishes-Follows e f sound run in
    let sound_after = publish-IsSound mutation f g done w.sound h in
    elim (publish_inv mutation f g done h) [
      | inl same ↦ subst (λ x. Follows e x) (sym same) w
      | inr c ↦
          subst (λ x. Follows e x) (sym c.after)
            (record {
              schema = w.schema;
              owner = w.owner;
              later = omega (arith, w.later);
              sound = subst (λ x. IsSound x) c.after sound_after;
              unchanged =
                  commit-Unchanged e.revision (f.revision + 1) e.values c.prepared
                    (f.values, f.modified) (omega (arith, w.later)) w.unchanged;
            })
    ]

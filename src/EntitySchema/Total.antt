-- ===== src/EntitySchema/Total.antt =====
-- The loops of `snapshot`, `changes` and `persistent` of src/entity_schema.cpp throw nothing.
use fsnet.Base.{
  ℕ, Bool, true, Bytes, [], ◌∷◌, none, some, if◌then◌else◌, ◌≡◌, refl, ap, ◌∙◌, inl, inr, ltb,
}
use fsnet.Base.Errors.{ok, ◌>>=◌}
use fsnet.Base.Maps.{Map, find, IsSorted, find_below}
use fsnet.Base.Tests.{Bool-cases}
use fsnet.Base.Texts.{text_eq, text_eq→eq, text_eq_refl}
use fsnet.Attribute.{AttributeStruct}
use fsnet.AttributeUpdate.{AttributeUpdate}
use fsnet.EntitySchema.{head, AttributeDefinition, AttributeView}
use fsnet.EntitySchema.Carrier.{EntityAttributes, at, add, or_out_of_range}
use fsnet.EntitySchema.Collected.{IsSorted-tail}
use fsnet.EntitySchema.Sound.{IsSound}
use fsnet.EntitySchema.Views.{
  snapshot, changes, persistent, collect, collect_changes, visible, owned,
}
use mathlib.Core.Path.{subst}

-- Each key of the schema is a key of the map.
abbrev Covers {ℓ} : {A : Type ℓ} → Map AttributeDefinition → Map A → Type ℓ
Covers [] m = Unit
Covers {A = A} ((name, d) ∷ attributes) m = ((a : A) × (find name m ≡ some a)) × Covers attributes m

all-Covers {ℓ} :
    {A : Type ℓ} (attributes : Map AttributeDefinition) (m : Map A)
    → IsSorted attributes
    → ((k : Bytes) (d : AttributeDefinition)
        → find k attributes ≡ some d
        → (a : A) × (find k m ≡ some a))
    → Covers attributes m
unfolding find
all-Covers [] m sorted h = tt
all-Covers ((name, d) ∷ attributes) m sorted h = (
  h name d (ap (λ b. if b then some d else find name attributes) (text_eq_refl name)),
  all-Covers attributes m (IsSorted-tail name d attributes sorted) (λ k c found.
      elim (Bool-cases (text_eq name k)) [
        | inl e ↦
            let below : find k attributes ≡ none =
              subst (λ x. find x attributes ≡ none) (text_eq→eq name k e)
                (find_below name attributes sorted) in
            cc
        | inr e ↦ h k c (ap (λ b. if b then some d else find k attributes) e ∙ found)
      ]),
)

pub at_ok {ℓ} :
    {A : Type ℓ} (name : Bytes) (m : Map A) (a : A) → find name m ≡ some a → at name m ≡ ok a
unfolding at
at_ok name m a h = ap (λ o. or_out_of_range o) h

collect_total :
    (wanted : AttributeDefinition → Bool) (values : AttributeStruct)
    (attributes : Map AttributeDefinition) (out : AttributeStruct)
    → Covers attributes values
    → (result : AttributeStruct) × (collect wanted values attributes out ≡ ok result)
unfolding collect
collect_total wanted values [] out c = (out, refl)
collect_total wanted values ((name, d) ∷ attributes) out c = elim (Bool-cases (wanted d)) [
  | inl e ↦
      let (value, stored) = c.0 in
      rw (e, collect, at_ok name values value stored, ◌>>=◌)
        (collect_total wanted values attributes (add name value out) c.1)
  | inr e ↦ rw (e, collect) (collect_total wanted values attributes out c.1)
]

collect_changes_total :
    (since : ℕ) (modified : Map ℕ) (wanted : AttributeDefinition → Bool) (values : AttributeStruct)
    (attributes : Map AttributeDefinition) (out : AttributeStruct)
    → Covers attributes values
    → Covers attributes modified
    → (result : AttributeStruct) × (collect_changes since modified wanted values attributes out
        ≡ ok result)
unfolding collect_changes
collect_changes_total since modified wanted values [] out c m = (out, refl)
collect_changes_total since modified wanted values ((name, d) ∷ attributes) out c m =
    elim (Bool-cases (wanted d)) [
      | inr e ↦
          rw (e, collect_changes)
            (collect_changes_total since modified wanted values attributes out c.1 m.1)
      | inl e ↦
          let (version, there) = m.0 in
          elim (Bool-cases (ltb since version)) [
            | inr old ↦
                rw (e, collect_changes, at_ok name modified version there, ◌>>=◌, old)
                  (collect_changes_total since modified wanted values attributes out c.1 m.1)
            | inl new ↦
                let (value, stored) = c.0 in
                rw
                  (
                    e,
                    collect_changes,
                    at_ok name modified version there,
                    ◌>>=◌,
                    new,
                    at_ok name values value stored,
                  )
                  (collect_changes_total since modified wanted values attributes
                    (add name value out) c.1 m.1)
          ]
    ]

-- On a well-formed state `snapshot`, `changes` from any revision and `persistent` return a result,
-- for every view: no lookup of theirs fails.
pub snapshot-changes-persistent :
    (e : EntityAttributes) (view : AttributeView) (since : ℕ)
    → IsSound e
    → ((u : AttributeUpdate) × (snapshot view e ≡ ok u))
      × ((u : AttributeUpdate) × (changes since view e ≡ ok u))
      × ((values : AttributeStruct) × (persistent e ≡ ok values))
unfolding snapshot changes persistent
snapshot-changes-persistent e view since sound =
    let c : Covers e.schema.attributes e.values =
      all-Covers e.schema.attributes e.values sound.sorted
        (λ k d f. let x = sound.entries.at_key k d f in (x.value, x.stored)) in
    let m : Covers e.schema.attributes e.modified =
      all-Covers e.schema.attributes e.modified sound.sorted
        (λ k d f. let x = sound.entries.at_key k d f in (x.version, x.versioned)) in
    let seen : AttributeDefinition → Bool = λ d. visible d (owned view e) view.observer in
    let (v1, h1) = collect_total seen e.values e.schema.attributes [] c in
    let (v2, h2) =
      collect_changes_total since e.modified seen e.values e.schema.attributes [] c m in
    let whole : (u : AttributeUpdate) × (snapshot view e ≡ ok u) = (
      _,
      ap
          (λ r. r >>= λ values. ok (record {
            base = 0;
            revision = e.revision;
            snapshot = true;
            values = values;
            patches = [];
          }))
          h1,
    ) in
    (
      whole,
      elim (Bool-cases (ltb e.revision since)) [
        | inl later ↦ rw later whole
        | inr earlier ↦ rw (earlier, h2) (_, refl)
      ],
      collect_total (λ d. (head d).persist) e.values e.schema.attributes [] c,
    )

-- ===== src/EntitySchema/Views.antt =====
-- src/entity_schema.cpp: what EntityAttributes shows: `snapshot`, `changes` and `persistent`.
use fsnet.Base.{ℕ, Bool, true, false, ◌&&◌, ◌||◌, ltb, [], ◌∷◌, if◌then◌else◌}
use fsnet.Base.Errors.{Outcome, ok, ◌>>=◌}
use fsnet.Base.Maps.{Map}
use fsnet.Attribute.{AttributeStruct}
use fsnet.AttributeUpdate.{AttributeUpdate}
use fsnet.Connection.{matches_key}
use fsnet.EntitySchema.{Visibility, AttributeDefinition, AttributeView, head}
use fsnet.EntitySchema.Carrier.{EntityAttributes, at, add}
use fsnet.EntitySchema.Definition.{reads}

abbrev pub owned : AttributeView → EntityAttributes → Bool
owned view e = matches_key view.connection e.owner

unfoldable pub visible : AttributeDefinition → Bool → Bool → Bool
visible d is_owned observer = reads (head d).client && elim (head d).visibility [
  | Visibility.none ↦ false
  | Visibility.owner ↦ is_owned
  | Visibility.observers ↦ observer || is_owned
]

-- The loops over the attributes that add the values of those which are wanted.
unfoldable pub collect :
    (AttributeDefinition → Bool)
    → AttributeStruct
    → Map AttributeDefinition
    → AttributeStruct
    → Outcome AttributeStruct
unfolding at add
collect wanted values [] out = ok out
collect wanted values ((name, d) ∷ attributes) out = elim (wanted d) [
  | false ↦ collect wanted values attributes out
  | true ↦ at name values >>= λ value. collect wanted values attributes (add name value out)
]

unfoldable pub snapshot : AttributeView → EntityAttributes → Outcome AttributeUpdate
unfolding collect visible
snapshot view e = do
  values ← collect (λ d. visible d (owned view e) view.observer) e.values e.schema.attributes []
  ok (record { base = 0; revision = e.revision; snapshot = true; values = values; patches = [] })

-- The loop of `changes`: the visible attributes that were modified after `since`.
unfoldable pub collect_changes :
    ℕ
    → Map ℕ
    → (AttributeDefinition → Bool)
    → AttributeStruct
    → Map AttributeDefinition
    → AttributeStruct
    → Outcome AttributeStruct
unfolding at add
collect_changes since modified wanted values [] out = ok out
collect_changes since modified wanted values ((name, d) ∷ attributes) out = elim (wanted d) [
  | false ↦ collect_changes since modified wanted values attributes out
  | true ↦ at name modified >>= λ version. elim (ltb since version) [
    | false ↦ collect_changes since modified wanted values attributes out
    | true ↦ at name values >>= λ value.
        collect_changes since modified wanted values attributes (add name value out)
  ]
]

unfoldable pub changes : ℕ → AttributeView → EntityAttributes → Outcome AttributeUpdate
unfolding collect_changes visible snapshot
changes since view e =
    if ltb e.revision since
    then snapshot view e
    else (collect_changes since e.modified (λ d. visible d (owned view e) view.observer) e.values
          e.schema.attributes []
        >>= λ values. ok (record {
          base = since;
          revision = e.revision;
          snapshot = false;
          values = values;
          patches = [];
        }))

unfoldable pub persistent : EntityAttributes → Outcome AttributeStruct
unfolding collect
persistent e = collect (λ d. (head d).persist) e.values e.schema.attributes []

-- ===== src/EntitySchema/Reachable.antt =====
-- The states of EntityAttributes of src/entity_schema.cpp that its operations lead to.
use fsnet.Base.{true, ℕ, Bool, Bytes, ◌≡◌}
use fsnet.Base.Errors.{ok}
use fsnet.Base.Maps.{IsSorted}
use fsnet.Attribute.{AttributeStruct}
use fsnet.EntitySchema.{head, EntitySchema}
use fsnet.EntitySchema.Carrier.{EntityAttributes, Mutation, create, publish, restore, restore_full}
use fsnet.EntitySchema.Created.{create-IsSound}
use fsnet.EntitySchema.Publish.{publish-IsSound}
use fsnet.EntitySchema.Restored.{restore-IsSound}
use fsnet.EntitySchema.Sound.{IsSound}

pub data Reaches (schema : EntitySchema) (owner : Bytes) : EntityAttributes → Type 0 where
  created : {e : EntityAttributes} → create schema owner ≡ ok e → Reaches schema owner e
  published :
      {e e2 : EntityAttributes} (mutation : Mutation) (done : Bool)
      → Reaches schema owner e
      → publish mutation e ≡ ok (done, e2)
      → Reaches schema owner e2
  restored :
      {e e2 : EntityAttributes} (values : AttributeStruct) (revision : ℕ)
      → Reaches schema owner e
      → restore values revision e ≡ ok e2
      → Reaches schema owner e2
  fully_restored :
      {e e2 : EntityAttributes} (values : AttributeStruct) (revision : ℕ)
      → Reaches schema owner e
      → restore_full values revision e ≡ ok e2
      → Reaches schema owner e2

-- In each state that the constructor, `publish`, `restore` and `restore_full` lead to, however they
-- are called, every attribute of the schema has a value that is valid for its definition and a
-- version that is not above the revision. The attributes of the schema are in key order.
pub Reaches-IsSound :
    (schema : EntitySchema) (owner : Bytes) (e : EntityAttributes)
    → IsSorted schema.attributes
    → Reaches schema owner e
    → IsSound e
Reaches-IsSound schema owner e sorted (created h) = create-IsSound schema owner e sorted h
Reaches-IsSound schema owner e2 sorted (published {e = e} mutation done r h) =
    publish-IsSound mutation e e2 done (Reaches-IsSound schema owner e sorted r) h
Reaches-IsSound schema owner e2 sorted (restored {e = e} values revision r h) =
    restore-IsSound (λ d. (head d).persist) values revision e e2
      (Reaches-IsSound schema owner e sorted r) h
Reaches-IsSound schema owner e2 sorted (fully_restored {e = e} values revision r h) =
    restore-IsSound (λ d. true) values revision e e2 (Reaches-IsSound schema owner e sorted r) h

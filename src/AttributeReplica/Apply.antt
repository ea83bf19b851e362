-- ===== src/AttributeReplica/Apply.antt =====
-- `validate_overlay` and `AttributeReplica::apply` of src/attribute_wire.cpp.
use fsnet.Base.{
  ℕ, ◌+◌, ◌-◌, ◌^◌, Bool, true, false, not, ◌||◌, ◌&&◌, ◌==◌, ltb, Bytes, [], ◌∷◌, Option, none,
  some, if◌then◌else◌, is_empty,
}
use fsnet.Base.Errors.{Outcome, ok, ◌>>=◌, ◌>>◌, throw_if, invalid_argument, replica_budget}
use fsnet.Base.Texts.{text_eq, text_lt}
use fsnet.Attribute.{AttributeValue, AttributeStruct, bad_name, node_limit}
use fsnet.Attribute.Encode.{size_output, write_name, encode_value}
use fsnet.AttributeReplica.{overlay}
use fsnet.AttributeReplica.Bytes.{attribute_entry_bytes, attribute_image_bytes}
use fsnet.AttributeReplica.Patch.{materialize}
use fsnet.AttributeUpdate.{AttributeUpdate}
use fsnet.AttributeUpdate.Decode.{decode_attributes}
use fsnet.AttributeUpdate.Encode.{attribute_wire_size}

-- The fields that the loop of `validate_overlay` visits; `rest` is the loop behind the current field.
unfoldable pub visit :
    Bytes
    → AttributeValue
    → AttributeStruct
    → (AttributeStruct → AttributeStruct)
    → AttributeStruct
    → AttributeStruct
visit k v current rest [] = (k, v) ∷ current
visit k v current rest ((j, w) ∷ delta) = elim (text_lt k j) [
  | true ↦ (k, v) ∷ rest ((j, w) ∷ delta)
  | false ↦ elim (text_eq k j) [
    | true ↦ (j, w) ∷ rest delta
    | false ↦ (j, w) ∷ visit k v current rest delta
  ]
]

unfoldable pub merged : AttributeStruct → AttributeStruct → AttributeStruct
unfolding visit
merged [] delta = delta
merged ((k, v) ∷ current) delta = visit k v current (merged current) delta

-- The body of the loop: the fields that were visited, the output and the nodes, the native bytes.
unfoldable pub validate_fields : AttributeStruct → ℕ → ℕ × ℕ → ℕ → Outcome ℕ
unfolding attribute_entry_bytes
validate_fields [] count s native_bytes = ok (s.0 + native_bytes)
validate_fields ((name, value) ∷ fields) count s native_bytes = do
  throw_if (ltb 256 (count + 1)) invalid_argument
  throw_if (bad_name name) invalid_argument
  t ← encode_value size_output value 0 (write_name size_output name s)
  validate_fields fields (count + 1) t (native_bytes + attribute_entry_bytes name value)

unfoldable pub validate_overlay : AttributeStruct → AttributeStruct → Outcome ℕ
unfolding merged validate_fields
validate_overlay current delta = validate_fields (merged current delta) 0 (23, node_limit) 256

pub record Replica : Type 0 where
  pub image : Option AttributeUpdate
  pub revision : ℕ
  pub initialized : Bool
  pub image_bytes : ℕ

abbrev pub empty_replica : Replica
empty_replica = record { image = none; revision = 0; initialized = false; image_bytes = 0 }

abbrev pub values_of : Option AttributeUpdate → AttributeStruct
values_of none = []
values_of (some image) = image.values

unfoldable pub values : Replica → AttributeStruct
values r = values_of r.image

-- The image that another one with the values becomes.
abbrev pub image_with : ℕ → AttributeStruct → AttributeUpdate
image_with revision values = record {
  base = 0;
  revision = revision;
  snapshot = true;
  values = values;
  patches = [];
}

unfoldable pub image_size : AttributeUpdate → Replica → Outcome ℕ
unfolding values validate_overlay attribute_image_bytes
image_size update r =
    if update.snapshot
    then (attribute_wire_size update >>= λ size. ok (size + attribute_image_bytes update.values))
    else validate_overlay (values r) update.values

-- An update without patches becomes the image.
unfoldable pub store : ℕ → AttributeUpdate → Replica → Outcome (Bool × Replica)
unfolding image_size values overlay
store max_image_bytes update r = do
  count ← image_size update r
  throw_if (ltb max_image_bytes count) replica_budget
  ok (
    true,
    record {
      image = some (
          image_with update.revision
            (if update.snapshot then update.values else overlay (values r) update.values));
      revision = update.revision;
      initialized = true;
      image_bytes = count;
    },
  )

-- The update does not follow the image, or is older.
abbrev pub unfit : AttributeUpdate → Replica → Bool
unfit update r =
    (not update.snapshot && (not r.initialized || not (update.base == r.revision)))
    || (r.initialized && ltb update.revision r.revision)

-- `apply` of an update without patches
unfoldable pub apply_plain : ℕ → AttributeUpdate → Replica → Outcome (Bool × Replica)
unfolding store
apply_plain max_image_bytes update r = do
  size ← attribute_wire_size update
  (if unfit update r then ok (false, r) else store max_image_bytes update r)

unfoldable pub apply : ℕ → AttributeUpdate → Replica → Outcome (Bool × Replica)
unfolding store apply_plain values
apply max_image_bytes update r = do
  size ← attribute_wire_size update
  (if unfit update r
      then ok (false, r)
      else if is_empty update.patches
      then store max_image_bytes update r
      else (materialize (values r) update.patches update.values >>= λ materialized.
          apply_plain max_image_bytes
            (record update { snapshot = false; values = materialized; patches = [] }) r))

-- `apply(std::string_view)`, with the greatest std::size_t for the budget
unfoldable pub apply_bytes : Bytes → Replica → Outcome (Bool × Replica)
unfolding apply
apply_bytes input r = do update ← decode_attributes input; apply (2 ^ 64 - 1) update r

unfoldable pub reset : Replica → Replica
reset r = empty_replica

-- ===== src/EntitySchema/Definition.antt =====
-- src/entity_schema.cpp: `definition_valid` and `EntitySchema::validate`. The budgets of nodes are
-- arguments, and part of the result.
use fsnet.Base.{
  ℕ, ◌+◌, ◌-◌, Bool, true, false, not, ◌&&◌, ◌||◌, ◌==◌, ltb, Bytes, [], ◌∷◌, length, Option, none,
  some, is_empty,
}
use fsnet.Base.Errors.{Outcome, ok, err, invalid_argument, throw_if, ◌>>=◌, ◌>>◌}
use fsnet.Base.Int.{ltb_ℤ}
use fsnet.Base.Maps.{Map}
use fsnet.EntitySchema.{
  Access, Visibility, AttributeType, DefinitionHead, AttributeDefinition, definition, Definitions,
  no_definition, defined, Element, no_element, element, EntitySchema, RpcPolicy, head,
}
use fsnet.EntitySchema.Valid.{valid, type_index, definition_count, is_some_element}
use fsnet.Message.{has_separator, front_is}

unfoldable pub name_valid : Bytes → Bool
unfolding has_separator
name_valid s =
    not (is_empty s) && not (ltb 127 (length s)) && not (has_separator s) && not (front_is b'$' s)

abbrev pub is_container : AttributeType → Bool
is_container AttributeType.list = true
is_container AttributeType.map = true
is_container AttributeType.set = true
is_container other = false

abbrev pub is_scalar_element : Element → Bool
is_scalar_element no_element = true
is_scalar_element (element (definition h fields held)) = not (ltb 3 (type_index h.type))

-- What the type of a definition asks of its other members, but not of the definitions in it.
unfoldable pub bad_shape : DefinitionHead → Definitions → Element → Bool
bad_shape h fields held = elim h.type [
  | AttributeType.structure ↦
      definition_count fields == 0
      || ltb 64 (definition_count fields)
      || is_some_element held
      || not (h.length == 0)
  | AttributeType.array ↦
      not (is_some_element held)
      || not (definition_count fields == 0)
      || h.length == 0
      || ltb 256 h.length
  | AttributeType.list ↦ bad_container h fields held
  | AttributeType.map ↦ bad_container h fields held
  | AttributeType.set ↦ bad_container h fields held || not (is_scalar_element held)
  | _ ↦
      not (definition_count fields == 0)
      || is_some_element held
      || not (h.length == 0)
      || ltb 8 (type_index h.type)
]
  where
    bad_container : DefinitionHead → Definitions → Element → Bool
    bad_container h fields held =
        not (is_some_element held)
        || not (definition_count fields == 0)
        || not (h.length == 0)
        || h.max_items == 0
        || ltb 256 h.max_items

-- The definitions within are visited for a structure, an array and a container.
abbrev pub visit : AttributeType → (ℕ → Outcome ℕ) → (ℕ → Outcome ℕ) → ℕ → Outcome ℕ
visit AttributeType.structure on_fields on_element left = on_fields left
visit AttributeType.array on_fields on_element left = on_element left
visit AttributeType.list on_fields on_element left = on_element left
visit AttributeType.map on_fields on_element left = on_element left
visit AttributeType.set on_fields on_element left = on_element left
visit other on_fields on_element left = ok left

unfoldable mutual
  unfolding name_valid bad_shape

  pub definition_valid : AttributeDefinition → ℕ → ℕ → Outcome ℕ
  definition_valid (definition h fields held) depth remaining = do
    throw_if (ltb 8 depth || remaining == 0) invalid_argument
    throw_if (ltb_ℤ h.maximum h.minimum) invalid_argument
    throw_if (not (h.max_items == 0) && not (is_container h.type)) invalid_argument
    throw_if (bad_shape h fields held) invalid_argument
    visit h.type (definitions_valid fields (depth + 1)) (element_valid held (depth + 1))
        (remaining - 1)

  pub definitions_valid : Definitions → ℕ → ℕ → Outcome ℕ
  definitions_valid no_definition depth remaining = ok remaining
  definitions_valid (defined name child fields) depth remaining = do
    throw_if (not (name_valid name)) invalid_argument
    left ← definition_valid child depth remaining
    definitions_valid fields depth left

  pub element_valid : Element → ℕ → ℕ → Outcome ℕ
  element_valid no_element depth remaining = ok remaining
  element_valid (element child) depth remaining = definition_valid child depth remaining

abbrev pub reads : Access → Bool
reads Access.read = true
reads Access.read_write = true
reads other = false

abbrev pub writes : Access → Bool
writes Access.write = true
writes Access.read_write = true
writes other = false

abbrev pub is_none : Visibility → Bool
is_none Visibility.none = true
is_none other = false

abbrev pub or_invalid : Option ℕ → Outcome ℕ
or_invalid none = err invalid_argument
or_invalid (some left) = ok left

-- the loop over the attributes, with both budgets
unfoldable pub validate_attributes : Map AttributeDefinition → ℕ → ℕ → Outcome (Unit {0})
unfolding name_valid
validate_attributes [] remaining values_remaining = ok tt
validate_attributes ((name, d) ∷ attributes) remaining values_remaining = do
  left ← definition_valid d 0 remaining
  throw_if (not (name_valid name) || ltb_ℤ (head d).maximum (head d).minimum) invalid_argument
  values_left ← or_invalid (valid (head d).initial d 0 values_remaining)
  throw_if (not (is_none (head d).visibility) && not (reads (head d).client)) invalid_argument
  validate_attributes attributes left values_left

unfoldable pub validate_methods : Map RpcPolicy → Outcome (Unit {0})
unfolding name_valid
validate_methods [] = ok tt
validate_methods ((name, p) ∷ methods) =
    throw_if (not (name_valid name) || (not p.client && not p.server)) invalid_argument
    >> validate_methods methods

unfoldable pub validate : EntitySchema → Outcome (Unit {0})
validate schema = do
  throw_if (ltb 256 (length schema.attributes) || ltb 256 (length schema.methods)) invalid_argument
  validate_attributes schema.attributes 4096 4096
  validate_methods schema.methods

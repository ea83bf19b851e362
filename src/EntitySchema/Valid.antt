-- ===== src/EntitySchema/Valid.antt =====
-- src/entity_schema.cpp: `valid`, `definition_valid` and `EntitySchema::validate`. The budget of nodes
-- is an argument, and part of the result.
use fsnet.EntitySchema.{head}
use fsnet.Base.{
  ◌+◌, length, ◌&&◌, suc, ℕ, ◌-◌, Bool, true, false, not, ◌||◌, ◌==◌, ltb, Bytes, [], ◌∷◌, Option,
  none, some, if◌then◌else◌,
}
use fsnet.Base.Int.{ltb_ℤ}
use fsnet.Base.Texts.{text_eq}
use fsnet.Attribute.{
  integer, number, boolean, string, structure, array, bad_map_key, no_field, no_item, item, Items,
  field, Fields, elements, entries, is_finite, dictionary, AttributeValue, index, AttributeArray,
}
use fsnet.Attribute.Equality.{value_eq}
use fsnet.EntitySchema.{
  element, definition, Element, AttributeType, DefinitionHead, AttributeDefinition, Definitions,
  no_definition, defined, no_element,
}

abbrev pub type_index : AttributeType → ℕ
type_index AttributeType.integer = 0
type_index AttributeType.number = 1
type_index AttributeType.boolean = 2
type_index AttributeType.string = 3
type_index AttributeType.structure = 4
type_index AttributeType.array = 5
type_index AttributeType.list = 6
type_index AttributeType.map = 7
type_index AttributeType.set = 8

-- The alternative of the variant that holds values of a type.
abbrev pub expected : AttributeType → ℕ
expected AttributeType.list = 5
expected AttributeType.set = 5
expected AttributeType.map = 6
expected AttributeType.array = 5
expected AttributeType.structure = 4
expected AttributeType.string = 3
expected AttributeType.boolean = 2
expected AttributeType.number = 1
expected AttributeType.integer = 0

abbrev pub find_definition : Bytes → Definitions → Option AttributeDefinition
find_definition name no_definition = none
find_definition name (defined key d definitions) =
    if text_eq key name then some d else find_definition name definitions

abbrev pub definition_count : Definitions → ℕ
definition_count no_definition = 0
definition_count (defined key d definitions) = suc (definition_count definitions)

-- the first tests of `valid`, and the budget after them
abbrev pub enter : DefinitionHead → AttributeValue → ℕ → ℕ → Option ℕ
enter h value depth remaining =
    if ltb 8 depth || remaining == 0 || not (index value == expected h.type)
    then none
    else some (remaining - 1)

abbrev pub when : Bool → ℕ → Option ℕ
when true left = some left
when false left = none

infixl 5 ◌then◌
abbrev pub ◌then◌ : Option ℕ → (ℕ → Option ℕ) → Option ℕ
none then next = none
(some left) then next = next left

abbrev pub among : AttributeValue → AttributeArray → Bool
among value [] = false
among value (other ∷ others) = value_eq value other || among value others

-- Two of the elements are equal.
abbrev pub repeats : AttributeArray → AttributeArray → Bool
repeats before [] = false
repeats before (value ∷ values) = among value before || repeats (value ∷ before) values

abbrev pub is_set : AttributeType → Bool
is_set AttributeType.set = true
is_set other = false

abbrev pub is_array : AttributeType → Bool
is_array AttributeType.array = true
is_array other = false

abbrev pub is_some_element : Element → Bool
is_some_element no_element = false
is_some_element (element d) = true

-- A child is valid for its definition, if there is one.
abbrev pub by_definition :
    (AttributeDefinition → ℕ → ℕ → Option ℕ) → Option AttributeDefinition → ℕ → ℕ → Option ℕ
by_definition test none depth left = none
by_definition test (some d) depth left = test d depth left

abbrev pub by_element : (AttributeDefinition → ℕ → ℕ → Option ℕ) → Element → ℕ → ℕ → Option ℕ
by_element test no_element depth left = none
by_element test (element d) depth left = test d depth left

abbrev pub fields_of : AttributeDefinition → Definitions
fields_of (definition h fields held) = fields

abbrev pub element_of : AttributeDefinition → Element
element_of (definition h fields held) = held

unfoldable mutual
  pub valid : AttributeValue → AttributeDefinition → ℕ → ℕ → Option ℕ
  valid (integer n) d depth remaining =
      enter (head d) (integer n) depth remaining
      then when (not (ltb_ℤ n (head d).minimum) && not (ltb_ℤ (head d).maximum n))
  valid (number n) d depth remaining =
      enter (head d) (number n) depth remaining then when (is_finite n)
  valid (boolean b) d depth remaining = enter (head d) (boolean b) depth remaining
  valid (string text) d depth remaining =
      enter (head d) (string text) depth remaining then when (not (ltb 65536 (length text)))
  valid (structure values) d depth remaining =
      enter (head d) (structure values) depth remaining
      then when (length (entries values) == definition_count (fields_of d))
      then valid_fields values (fields_of d) (depth + 1)
  valid (array items) d depth remaining =
      enter (head d) (array items) depth remaining
      then when (
          is_some_element (element_of d)
          && (if is_array (head d).type
              then length (elements items) == (head d).length
              else not (ltb (head d).max_items (length (elements items)))))
      then when (not (is_set (head d).type && repeats [] (elements items)))
      then valid_items items (element_of d) (depth + 1)
  valid (dictionary values) d depth remaining =
      enter (head d) (dictionary values) depth remaining
      then when
          (is_some_element (element_of d) && not (ltb (head d).max_items (length (entries values))))
      then valid_entries values (element_of d) (depth + 1)

  pub valid_fields : Fields → Definitions → ℕ → ℕ → Option ℕ
  valid_fields no_field fields depth left = some left
  valid_fields (field name value values) fields depth left =
      by_definition (valid value) (find_definition name fields) depth left
      then valid_fields values fields depth

  pub valid_items : Items → Element → ℕ → ℕ → Option ℕ
  valid_items no_item held depth left = some left
  valid_items (item value values) held depth left =
      by_element (valid value) held depth left then valid_items values held depth

  pub valid_entries : Fields → Element → ℕ → ℕ → Option ℕ
  valid_entries no_field held depth left = some left
  valid_entries (field key value values) held depth left =
      when (not (bad_map_key key)) left
      then by_element (valid value) held depth
      then valid_entries values held depth

-- ===== src/EntitySchema/Budget.antt =====
-- `valid` of src/entity_schema.cpp with a larger budget of nodes: the same answer.
use fsnet.Base.{
  ℕ, ◌+◌, ◌≤◌, Bool, true, false, not, ◌&&◌, ◌==◌, ltb, ◌≡◌, refl, Option, none, some, arith,
  length, if◌then◌else◌, [],
}
use fsnet.Base.Int.{ltb_ℤ}
use fsnet.Attribute.{
  AttributeValue, integer, number, boolean, string, structure, array, dictionary, Fields, no_field,
  field, Items, no_item, item, entries, elements, is_finite, bad_map_key,
}
use fsnet.EntitySchema.{
  AttributeDefinition, DefinitionHead, Definitions, Element, no_element, element, head,
}
use fsnet.EntitySchema.Valid.{
  valid, valid_fields, valid_items, valid_entries, enter, when, ◌then◌, by_definition, by_element,
  fields_of, element_of, find_definition, definition_count, is_some_element, is_array, is_set,
  repeats,
}

-- A test that takes nodes from its budget, and does not look at what is left beyond that.
pub record More (f : ℕ → Option ℕ) : Type 0 where
  pub same : (r k l : ℕ) → f r ≡ some l → f (r + k) ≡ some (l + k)
  pub less : (r l : ℕ) → f r ≡ some l → l ≤ r

More-some : More (λ r. some r)
More-some = record { same = λ r k l h. cc; less = λ r l h. some_le r l h }
  where
    some_le : (r l : ℕ) → some r ≡ some l → l ≤ r
    some_le r l h = let e : r ≡ l = cc in omega (arith, e)

More-when : (b : Bool) → More (when b)
More-when true = record { same = More-some.same; less = More-some.less }
More-when false = record { same = λ r k l h. cc; less = λ r l h. absurd (none_some l h) }
  where
    none_some : (l : ℕ) → ¬ (none ≡ some l)
    none_some l h = cc

More-enter : (h : DefinitionHead) (value : AttributeValue) (depth : ℕ) → More (enter h value depth)
More-enter h value depth = record {
  same = λ r k l e. ground (arith, e);
  less = λ r l e. ground (arith, e);
}

then_inv :
    (o : Option ℕ) (g : ℕ → Option ℕ) (l : ℕ)
    → (o then g) ≡ some l
    → (m : ℕ) × (o ≡ some m) × (g m ≡ some l)
then_inv none g l h = cc
then_inv (some m) g l h = (m, refl, h)

then_some :
    (o : Option ℕ) (g : ℕ → Option ℕ) (m l : ℕ) → o ≡ some m → g m ≡ some l → (o then g) ≡ some l
then_some none g m l h k = cc
then_some (some n) g m l h k = let e : n ≡ m = cc in rw e k

More-then : (f g : ℕ → Option ℕ) → More f → More g → More (λ r. f r then g)
More-then f g a b = record {
  same = λ r k l h.
      let (m, p, q) = then_inv (f r) g l h in
      then_some (f (r + k)) g (m + k) (l + k) (a.same r k m p) (b.same m k l q);
  less = λ r l h. let (m, p, q) = then_inv (f r) g l h in omega (arith, a.less r m p, b.less m l q);
}

More-definition :
    (test : AttributeDefinition → ℕ → ℕ → Option ℕ) (o : Option AttributeDefinition) (depth : ℕ)
    → ((d : AttributeDefinition) → More (test d depth))
    → More (by_definition test o depth)
More-definition test none depth h = record {
  same = (More-when false).same;
  less = (More-when false).less;
}
More-definition test (some d) depth h = record { same = (h d).same; less = (h d).less }

More-element :
    (test : AttributeDefinition → ℕ → ℕ → Option ℕ) (held : Element) (depth : ℕ)
    → ((d : AttributeDefinition) → More (test d depth))
    → More (by_element test held depth)
More-element test no_element depth h = record {
  same = (More-when false).same;
  less = (More-when false).less;
}
More-element test (element d) depth h = record { same = (h d).same; less = (h d).less }

mutual
  unfolding valid

  pub valid-More :
      (value : AttributeValue) (d : AttributeDefinition) (depth : ℕ) → More (valid value d depth)
  valid-More (integer n) d depth =
      More-then _ _ (More-enter (head d) (integer n) depth)
        (More-when (not (ltb_ℤ n (head d).minimum) && not (ltb_ℤ (head d).maximum n)))
  valid-More (number n) d depth =
      More-then _ _ (More-enter (head d) (number n) depth) (More-when (is_finite n))
  valid-More (boolean b) d depth = More-enter (head d) (boolean b) depth
  valid-More (string text) d depth =
      More-then _ _ (More-enter (head d) (string text) depth)
        (More-when (not (ltb 65536 (length text))))
  valid-More (structure values) d depth =
      More-then _ _
        (More-then _ _ (More-enter (head d) (structure values) depth)
          (More-when (length (entries values) == definition_count (fields_of d))))
        (fields-More values (fields_of d) (depth + 1))
  valid-More (array items) d depth =
      More-then _ _
        (More-then _ _
          (More-then _ _ (More-enter (head d) (array items) depth) (
            More-when (
              is_some_element (element_of d)
              && (if is_array (head d).type
                  then length (elements items) == (head d).length
                  else not (ltb (head d).max_items (length (elements items)))))))
          (More-when (not (is_set (head d).type && repeats [] (elements items)))))
        (items-More items (element_of d) (depth + 1))
  valid-More (dictionary values) d depth =
      More-then _ _
        (More-then _ _ (More-enter (head d) (dictionary values) depth) (
          More-when (
            is_some_element (element_of d)
            && not (ltb (head d).max_items (length (entries values))))))
        (entries-More values (element_of d) (depth + 1))

  fields-More :
      (values : Fields) (fields : Definitions) (depth : ℕ) → More (valid_fields values fields depth)
  fields-More no_field fields depth = More-some
  fields-More (field name value values) fields depth =
      More-then _ _
        (More-definition (valid value) (find_definition name fields) depth
          (λ d. valid-More value d depth))
        (fields-More values fields depth)

  items-More : (items : Items) (held : Element) (depth : ℕ) → More (valid_items items held depth)
  items-More no_item held depth = More-some
  items-More (item value items) held depth =
      More-then _ _ (More-element (valid value) held depth (λ d. valid-More value d depth))
        (items-More items held depth)

  entries-More :
      (values : Fields) (held : Element) (depth : ℕ) → More (valid_entries values held depth)
  entries-More no_field held depth = More-some
  entries-More (field key value values) held depth =
      More-then _ _
        (More-then _ _ (More-when (not (bad_map_key key)))
          (More-element (valid value) held depth (λ d. valid-More value d depth)))
        (entries-More values held depth)

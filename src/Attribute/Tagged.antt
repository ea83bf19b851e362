-- ===== src/Attribute/Tagged.antt =====
-- What follows each tag is read back: `decode_value` of src/attribute_wire.cpp.
use fsnet.Base.{
  ◌^◌, ◌≤◌, ◌<◌, refl, ℕ, true, false, ltb, ◌==◌, ◌||◌, ap, length, ◌≡◌, not, [], ◌++◌, arith, Bool,
}
use fsnet.Base.Errors.{invalid_argument}
use fsnet.Base.Int.{negsuc, pos, ℤ, to_u64, of_u64-to_u64, IsInt64}
use fsnet.Base.Texts.{Bytes}
use fsnet.Attribute.{
  AttributeValue, integer, number, boolean, string, structure, array, dictionary, Fields, no_field,
  field, Items, no_item, item, entries, elements, to_fields, to_items, is_finite,
}
use fsnet.Attribute.Decode.{
  get_tagged, get_number, get_boolean, get_string, get_structure, get_array, get_dictionary,
  get_fields, get_entries, get_items,
}
use fsnet.Wire.{flag, ◌>>◌, throw_if, pure, take_text, get_uint, put_uint, Reader}
use fsnet.Wire.Reads.{Reads-uint, Reads-bind, Reads, Reads-text, Reads-guard, Reads-pure, Reads-end}

to_fields-entries : (fields : Fields) → to_fields (entries fields) ≡ fields
to_fields-entries no_field = refl
to_fields-entries (field name value fields) = ap (field name value) (to_fields-entries fields)

to_items-elements : (items : Items) → to_items (elements items) ≡ items
to_items-elements no_item = refl
to_items-elements (item value items) = ap (item value) (to_items-elements items)

-- What a tag is followed by, for the scalars.
pub Reads-number :
    (n left : ℕ) (get : ℕ → Reader (AttributeValue × ℕ))
    → n < 2 ^ 64
    → not (is_finite n) ≡ false
    → Reads (get_tagged get 1 left) (put_uint 8 n) (number n, left)
unfolding get_tagged get_number
Reads-number n left get small finite =
    Reads-end (get_number) _ (put_uint 8 n) (number n) _
      (Reads-end (get_uint invalid_argument 8) _ (put_uint 8 n) n _
        (Reads-uint invalid_argument 8 n (omega (arith, small)) small)
        (Reads-guard _ invalid_argument _ [] (number n) finite (Reads-pure (number n))))
      (Reads-pure _)

pub Reads-integer :
    (n : ℤ) (left : ℕ) (get : ℕ → Reader (AttributeValue × ℕ))
    → IsInt64 n
    → Reads (get_tagged get 0 left) (put_uint 8 (to_u64 n)) (integer n, left)
unfolding get_tagged
Reads-integer n left get fits =
    Reads-end _ _ (put_uint 8 (to_u64 n)) (integer n) _
      (Reads-end (get_uint invalid_argument 8) _ (put_uint 8 (to_u64 n)) (to_u64 n) _
        (Reads-uint invalid_argument 8 (to_u64 n) (word n fits) (word n fits))
        (rw (of_u64-to_u64 n fits) (Reads-pure (integer n))))
      (Reads-pure _)
  where
    word : (n : ℤ) → IsInt64 n → to_u64 n < 2 ^ 64
    word (pos n) h = omega arith
    word (negsuc n) h = omega arith

pub Reads-boolean :
    (b : Bool) (left : ℕ) (get : ℕ → Reader (AttributeValue × ℕ))
    → Reads (get_tagged get 2 left) (put_uint 1 (flag b)) (boolean b, left)
unfolding get_tagged get_boolean
Reads-boolean b left get =
    Reads-end get_boolean _ (put_uint 1 (flag b)) (boolean b) _
      (Reads-end (get_uint invalid_argument 1) _ (put_uint 1 (flag b)) (flag b) _
        (Reads-uint invalid_argument 1 (flag b) (small b) (omega (arith, small b))) (last b))
      (Reads-pure _)
  where
    small : (b : Bool) → flag b < 256
    small true = omega arith
    small false = omega arith

    last :
        (b : Bool)
        → Reads
            (throw_if (ltb 1 (flag b)) invalid_argument >> pure (boolean (not (flag b == 0))))
            []
            (boolean b)
    last true = Reads-pure _
    last false = Reads-pure _

pub Reads-string :
    (text : Bytes) (left : ℕ) (get : ℕ → Reader (AttributeValue × ℕ))
    → ltb 65536 (length text) ≡ false
    → Reads (get_tagged get 3 left) (put_uint 4 (length text) ++ text) (string text, left)
unfolding get_tagged get_string
Reads-string text left get short =
    let small : length text ≤ 65536 = ground (arith, short) in
    Reads-end get_string _ (put_uint 4 (length text) ++ text) (string text) _
      (Reads-bind (get_uint invalid_argument 4) _ _ text (length text) _
        (Reads-uint invalid_argument 4 (length text) (omega (arith, small)) (omega (arith, small)))
        (Reads-guard _ invalid_argument _ _ _ short (
          Reads-end (take_text invalid_argument (length text)) _ text text _
            (Reads-text invalid_argument text) (Reads-pure _))))
      (Reads-pure _)

module _ (get : ℕ → Reader (AttributeValue × ℕ)) (count remaining left : ℕ) (body : Bytes) where
  pub Reads-structure :
      (fields : Fields)
      → (count == 0 || ltb 64 count) ≡ false
      → Reads (get_fields get count [] remaining) body (entries fields, left)
      → Reads (get_tagged get 4 remaining) (put_uint 1 count ++ body) (structure fields, left)
  unfolding get_tagged get_structure
  Reads-structure fields good r =
      let small : count ≤ 64 = ground (arith, good) in
      Reads-bind (get_uint invalid_argument 1) _ _ body count (structure fields, left)
        (Reads-uint invalid_argument 1 count (omega (arith, small)) (omega (arith, small)))
        (Reads-guard _ invalid_argument _ _ _ good (
          Reads-end (get_fields get count [] remaining) _ body (entries fields, left) _ r
            (rw (to_fields-entries fields) (Reads-pure _))))

  pub Reads-dictionary :
      (fields : Fields)
      → ltb 256 count ≡ false
      → Reads (get_entries get count [] remaining) body (entries fields, left)
      → Reads (get_tagged get 6 remaining) (put_uint 2 count ++ body) (dictionary fields, left)
  unfolding get_tagged get_dictionary
  Reads-dictionary fields good r =
      let small : count ≤ 256 = ground (arith, good) in
      Reads-bind (get_uint invalid_argument 2) _ _ body count (dictionary fields, left)
        (Reads-uint invalid_argument 2 count (omega (arith, small)) (omega (arith, small)))
        (Reads-guard _ invalid_argument _ _ _ good (
          Reads-end (get_entries get count [] remaining) _ body (entries fields, left) _ r
            (rw (to_fields-entries fields) (Reads-pure _))))

  pub Reads-array :
      (items : Items)
      → ltb 256 count ≡ false
      → Reads (get_items get count remaining) body (elements items, left)
      → Reads (get_tagged get 5 remaining) (put_uint 2 count ++ body) (array items, left)
  unfolding get_tagged get_array
  Reads-array items good r =
      let small : count ≤ 256 = ground (arith, good) in
      Reads-bind (get_uint invalid_argument 2) _ _ body count (array items, left)
        (Reads-uint invalid_argument 2 count (omega (arith, small)) (omega (arith, small)))
        (Reads-guard _ invalid_argument _ _ _ good (
          Reads-end (get_items get count remaining) _ body (elements items, left) _ r
            (rw (to_items-elements items) (Reads-pure _))))

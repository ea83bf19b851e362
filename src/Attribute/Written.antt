-- ===== src/Attribute/Written.antt =====
-- What a writer of src/attribute_wire.cpp adds to its output, and how a reader takes that off again:
-- the node of a value, and one entry of a structure, a map and an array.
use fsnet.Base.{
  zero, suc, ℕ, ok, false, ltb, ◌==◌, ◌||◌, ap, sym, ◌∙◌, length, some, [], ◌∷◌, arith, ◌≤◌, ◌+◌,
  ◌<◌, ◌^◌, ◌≡◌, ◌++◌, Bytes,
}
use fsnet.Base.Errors.{throw_if-eq-ok, ok-injective, invalid_argument}
use fsnet.Base.Int.{IsInt64}
use fsnet.Base.Maps.{emplace, IsSorted}
use fsnet.Base.Texts.{length-is_empty, contains_byte}
use fsnet.Attribute.{
  size_limit, bad_name, bad_map_key, AttributeStruct, AttributeArray, AttributeValue, index,
  integer, number, boolean, string, structure, array, dictionary, Fields, no_field, field, Items,
  no_item, item, entries,
}
use fsnet.Attribute.Decode.{
  get_name, get_map_key, get_fields, get_entries, get_items, Children, get_tagged, get_node,
  decode_value,
}
use fsnet.Attribute.Encode.{begin_value, within_limit, text_output}
use fsnet.Wire.{or_throw, take_text, get_uint, put_uint, Reader}
use fsnet.Wire.Reads.{
  Reads-text, Reads-guard, Reads-or_throw, Reads-pure, Reads-end, Reads-uint, Reads-bind, Reads,
}
use mathlib.Core.List.{append_assoc}

-- Values that the C++ types can hold: 64-bit numbers, and maps in key order.
unfoldable mutual
  pub IsValue : AttributeValue → Type 0
  IsValue (integer n) = IsInt64 n
  IsValue (number n) = n < 2 ^ 64
  IsValue (boolean b) = Unit
  IsValue (string text) = Unit
  IsValue (structure fields) = AreFields fields × IsSorted (entries fields)
  IsValue (array items) = AreItems items
  IsValue (dictionary fields) = AreFields fields × IsSorted (entries fields)

  pub AreFields : Fields → Type 0
  AreFields no_field = Unit
  AreFields (field name value fields) = IsValue value × AreFields fields

  pub AreItems : Items → Type 0
  AreItems no_item = Unit
  AreItems (item value items) = IsValue value × AreItems items

-- What a writer has done to its output and to the count of nodes, and how that is read back.
pub record Wrote {ℓ} {A : Type ℓ} (reader : ℕ → Reader (A × ℕ)) (s t : Bytes × ℕ) (a : A)
    : Type ℓ where
  pub bytes : Bytes
  pub output : t.0 ≡ s.0 ++ bytes
  pub reads : Reads (reader s.1) bytes (a, t.1)

abbrev pub pred : ℕ → ℕ
pred zero = zero
pred (suc n) = n

pub begin_inv :
    (depth : ℕ) (value : AttributeValue) (s t : Bytes × ℕ)
    → begin_value text_output depth value s ≡ ok t
    → (depth ≤ 8) × (s.1 ≡ suc t.1) × (t.0 ≡ s.0 ++ put_uint 1 (index value))
begin_inv depth value (out, left) (out2, left2) h =
    let (good, same) = throw_if-eq-ok (ltb 8 depth || left == 0) _ _ h in
    let e = ok-injective same in
    (
      ground arith,
      ground (arith, ap (λ (p : Bytes × ℕ). p.1) e),
      sym (ap (λ (p : Bytes × ℕ). p.0) e),
    )

pub limit_inv : (s t : Bytes × ℕ) → within_limit text_output s ≡ ok t → s ≡ t
limit_inv s t h =
    let (_, same) = throw_if-eq-ok (ltb size_limit (length s.0)) _ _ h in ok-injective same

-- the levels that are left for the children
pub deeper : (depth levels : ℕ) → depth + levels ≡ 9 → depth ≤ 8 → (depth + 1) + pred levels ≡ 9
deeper depth zero e h = omega arith
deeper depth (suc levels) e h = omega arith

Reads-levels :
    (levels depth remaining : ℕ) (value : AttributeValue) (body : Bytes) (left : ℕ)
    → depth + levels ≡ 9
    → depth ≤ 8
    → index value < 256
    → Reads (get_tagged (decode_value (pred levels)) (index value) remaining) body (value, left)
    → Reads (decode_value levels (suc remaining)) (put_uint 1 (index value) ++ body) (value, left)
unfolding decode_value get_node
Reads-levels zero depth remaining value body left e h small r = absurd (omega arith)
Reads-levels (suc levels) depth remaining value body left e h small r =
    Reads-bind (get_uint invalid_argument 1) _ _ body (index value) _
      (Reads-uint invalid_argument 1 (index value) (omega arith) (omega arith)) r

-- A node: its tag, and the rest by its kind.
pub Wrote-node :
    (levels depth : ℕ) (value : AttributeValue) (s t u : Bytes × ℕ) (body : Bytes)
    → depth + levels ≡ 9
    → index value < 256
    → begin_value text_output depth value s ≡ ok t
    → u.0 ≡ t.0 ++ body
    → Reads (get_tagged (decode_value (pred levels)) (index value) t.1) body (value, u.1)
    → Wrote (decode_value levels) s u value
Wrote-node levels depth value (out, left) t u body e small h o r =
    let (le, count, tag) = begin_inv depth value (out, left) t h in
    record {
      bytes = put_uint 1 (index value) ++ body;
      output =
          o ∙ ap (λ (x : Bytes). x ++ body) tag ∙ append_assoc out (put_uint 1 (index value)) body;
      reads = rw count (Reads-levels levels depth t.1 value body u.1 e le small r);
    }

name_size : (name : Bytes) → bad_name name ≡ false → length name ≤ 127
unfolding bad_name
name_size name h = ground arith

pub key_size : (key : Bytes) → bad_map_key key ≡ false → (0 < length key) × (length key ≤ 127)
unfolding bad_map_key
key_size key h = ground (arith, length-is_empty key)

pub key_byte : (key : Bytes) → bad_map_key key ≡ false → contains_byte 0 key ≡ false
unfolding bad_map_key
key_byte key h = ground arith

pub Reads-name :
    (name : Bytes) → bad_name name ≡ false → Reads get_name (put_uint 1 (length name) ++ name) name
unfolding get_name
Reads-name name h =
    let small = name_size name h in
    Reads-bind (get_uint invalid_argument 1) _ _ name (length name) name
      (Reads-uint invalid_argument 1 (length name) (omega (arith, small)) (omega (arith, small)))
      (Reads-text invalid_argument name)

pub Reads-map_key :
    (key : Bytes) → bad_map_key key ≡ false → Reads get_map_key (put_uint 1 (length key) ++ key) key
unfolding get_map_key
Reads-map_key key h =
    let (pos, small) = key_size key h in
    Reads-bind (get_uint invalid_argument 1) _ _ key (length key) key
      (Reads-uint invalid_argument 1 (length key) (omega (arith, small)) (omega (arith, small)))
      (Reads-guard _ invalid_argument _ key key (ground (arith, pos, small)) (
        Reads-end (take_text invalid_argument (length key)) _ key key key
          (Reads-text invalid_argument key)
          (Reads-guard _ invalid_argument _ [] key (key_byte key h) (Reads-pure key))))

module _ (get : Children) (n remaining left last : ℕ) (name : Bytes) (value : AttributeValue)
    (before more result : AttributeStruct) (body rest : Bytes) where
  pub Reads-field :
      bad_name name ≡ false
      → emplace name value before ≡ some more
      → Reads (get remaining) body (value, left)
      → Reads (get_fields get n more left) rest (result, last)
      → Reads
          (get_fields get (suc n) before remaining)
          ((put_uint 1 (length name) ++ name) ++ (body ++ rest))
          (result, last)
  unfolding get_fields
  Reads-field good new r s = Reads-bind get_name _ _ (body ++ rest) name _ (Reads-name name good) (
      Reads-guard _ invalid_argument _ _ _ good (
        Reads-bind (get remaining) _ body rest (value, left) _ r
          (Reads-bind (or_throw (emplace name value before) invalid_argument) _ [] rest more _
            (Reads-or_throw _ invalid_argument more new) s)))

  pub Reads-entry :
      bad_map_key name ≡ false
      → emplace name value before ≡ some more
      → Reads (get remaining) body (value, left)
      → Reads (get_entries get n more left) rest (result, last)
      → Reads
          (get_entries get (suc n) before remaining)
          ((put_uint 1 (length name) ++ name) ++ (body ++ rest))
          (result, last)
  unfolding get_entries
  Reads-entry good new r s =
      Reads-bind get_map_key _ _ (body ++ rest) name _ (Reads-map_key name good) (
        Reads-bind (get remaining) _ body rest (value, left) _ r
          (Reads-bind (or_throw (emplace name value before) invalid_argument) _ [] rest more _
            (Reads-or_throw _ invalid_argument more new) s))

pub Reads-item :
    (get : Children) (n remaining left last : ℕ) (value : AttributeValue) (result : AttributeArray)
    (body rest : Bytes)
    → Reads (get remaining) body (value, left)
    → Reads (get_items get n left) rest (result, last)
    → Reads (get_items get (suc n) remaining) (body ++ rest) (value ∷ result, last)
unfolding get_items
Reads-item get n remaining left last value result body rest r s =
    Reads-bind (get remaining) _ body rest (value, left) _ r
      (Reads-end (get_items get n left) _ rest (result, last) _ s (Reads-pure _))

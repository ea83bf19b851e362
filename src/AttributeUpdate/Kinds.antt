-- ===== src/AttributeUpdate/Kinds.antt =====
-- The three kinds of patches are read back: parts of `encode_patch` and `decode_attributes` of
-- src/attribute_wire.cpp.
use fsnet.Base.{
  if◌then◌else◌, ℕ, ok, true, false, ltb, ◌==◌, ◌||◌, ◌+◌, ◌-◌, ◌∙◌, length, ◌≡◌, not, ◌≤◌, refl,
  List, Bool, Option, none, some, [], ◌∷◌, ◌++◌, arith, Bytes, is_empty, is_some,
}
use fsnet.Base.Errors.{Outcome, throw_if-eq-ok, invalid_argument}
use fsnet.Attribute.{AttributeValue, bad_map_key}
use fsnet.Attribute.Decode.{get_items, decode_value}
use fsnet.Attribute.Encode.{text_output}
use fsnet.Attribute.Written.{Wrote, key_size, key_byte}
use fsnet.AttributeUpdate.{AttributePatch}
use fsnet.AttributeUpdate.Decode.{
  get_replacement, get_present, get_entry, get_splice, get_kind, empty_patch,
}
use fsnet.AttributeUpdate.Encode.{
  encode_replacement, encode_entry, encode_splice, encode_kind, kind,
}
use fsnet.AttributeUpdate.Values.{insert-Wrote, present-Wrote, some-Wrote, PatchFits}
use fsnet.Wire.{get_uint, put_uint, take_text, flag}
use fsnet.Wire.Reads.{Reads-pure, Reads-bind, Reads-guard, Reads-uint, Reads-end, Reads-text}
use mathlib.Core.List.{append_assoc}

pub is_empty-eq {ℓ} : {A : Type ℓ} (xs : List A) → not (is_empty xs) ≡ false → xs ≡ []
is_empty-eq [] h = refl
is_empty-eq (x ∷ xs) h = cc

pub replacement :
    (patch : AttributePatch) (value : AttributeValue)
    → patch.replace ≡ true
    → patch.value ≡ some value
    → (patch.is_map
        || not (is_some patch.value)
        || not (is_empty patch.key)
        || not (is_empty patch.insert)
        || not (patch.position == 0)
        || not (patch.remove == 0))
      ≡ false
    → record (empty_patch patch.property patch.path) { replace = true; value = some value } ≡ patch
replacement patch value r v h =
    let e1 : patch.is_map ≡ false = ground arith in
    let e2 : patch.key ≡ [] = ground (arith, is_empty-eq patch.key) in
    let e3 : patch.insert ≡ [] = ground (arith, is_empty-eq patch.insert) in
    let e4 : patch.position ≡ 0 = ground arith in
    let e5 : patch.remove ≡ 0 = ground arith in rw (e1, e2, e3, e4, e5, r, v)

pub entry :
    (patch : AttributePatch)
    → patch.replace ≡ false
    → patch.is_map ≡ true
    → (not (is_empty patch.insert) || not (patch.position == 0) || not (patch.remove == 0)) ≡ false
    → record (empty_patch patch.property patch.path) {
      is_map = true;
      key = patch.key;
      value = patch.value;
    }
      ≡ patch
entry patch r m h =
    let e3 : patch.insert ≡ [] = ground (arith, is_empty-eq patch.insert) in
    let e4 : patch.position ≡ 0 = ground arith in
    let e5 : patch.remove ≡ 0 = ground arith in rw (e3, e4, e5, r, m)

is_some-eq {ℓ} : {A : Type ℓ} (o : Option A) → is_some o ≡ false → o ≡ none
is_some-eq none h = refl
is_some-eq (some a) h = cc

pub splice :
    (patch : AttributePatch)
    → patch.replace ≡ false
    → patch.is_map ≡ false
    → (ltb 256 patch.position
        || ltb 256 patch.remove
        || ltb 256 (length patch.insert)
        || not (is_empty patch.key)
        || is_some patch.value)
      ≡ false
    → record (empty_patch patch.property patch.path) {
      position = patch.position;
      remove = patch.remove;
      insert = patch.insert;
    }
      ≡ patch
splice patch r m h =
    let e1 : patch.key ≡ [] = ground (arith, is_empty-eq patch.key) in
    let e2 : patch.value ≡ none = ground (arith, is_some-eq patch.value) in rw (e1, e2, r, m)

module _ (patch : AttributePatch) (s t : Bytes × ℕ) (short : length patch.path ≤ 8)
    (fits : PatchFits patch) where
  replacement-Wrote :
      patch.replace ≡ true
      → encode_replacement text_output patch s ≡ ok t
      → Wrote (get_replacement patch.property patch.path) s t patch
  unfolding encode_replacement get_replacement
  replacement-Wrote r h =
      let (good, k) =
        throw_if-eq-ok
          (patch.is_map
            || not (is_some patch.value)
            || not (is_empty patch.key)
            || not (is_empty patch.insert)
            || not (patch.position == 0)
            || not (patch.remove == 0))
          _ _ h in
      let (value, e, w) =
        some-Wrote patch.value (length patch.path) s t (omega (arith, short)) fits.0
          (ground (arith, good)) k in
      record {
        bytes = w.bytes;
        output = w.output;
        reads =
            Reads-end (decode_value (9 - length patch.path) s.1) _ w.bytes (value, t.1) _ w.reads
              (rw (replacement patch value r e good) (Reads-pure (patch, t.1)));
      }

  entry-Wrote :
      patch.replace ≡ false
      → patch.is_map ≡ true
      → encode_entry text_output patch s ≡ ok t
      → Wrote (get_entry patch.property patch.path) s t patch
  unfolding encode_entry get_entry
  entry-Wrote r m h =
      let (good, k) = throw_if-eq-ok (bad_map_key patch.key) _ _ h in
      let (empty, l) =
        throw_if-eq-ok
          (not (is_empty patch.insert) || not (patch.position == 0) || not (patch.remove == 0)) _ _
          k in
      let (pos, small) = key_size patch.key good in
      let w =
        present-Wrote patch.value (length patch.path + 1) _ t (omega (arith, short)) fits.0 l in
      let (one, same) = present_byte (is_some patch.value) in
      record {
        bytes =
            put_uint 1 (length patch.key)
            ++ (patch.key ++ (put_uint 1 (flag (is_some patch.value)) ++ w.bytes));
        output = w.output ∙ simp append_assoc;
        reads =
            Reads-bind (get_uint invalid_argument 1) _ _ _ (length patch.key) _
              (Reads-uint invalid_argument 1 (length patch.key) (omega (arith, small))
                (omega (arith, small)))
              (Reads-guard _ invalid_argument _ _ _ (ground (arith, pos, small)) (
                Reads-bind (take_text invalid_argument (length patch.key)) _ patch.key _ patch.key _
                  (Reads-text invalid_argument patch.key)
                  (Reads-guard _ invalid_argument _ _ _ (key_byte patch.key good) (
                    Reads-bind (get_uint invalid_argument 1) _ _ w.bytes
                      (flag (is_some patch.value)) _
                      (Reads-uint invalid_argument 1 (flag (is_some patch.value))
                        (omega (arith, one)) (omega (arith, one)))
                      (Reads-guard (ltb 1 (flag (is_some patch.value))) invalid_argument _ _ _
                        (ground (arith, one))
                        (rw same (
                          Reads-end (get_present (is_some patch.value) (length patch.path + 1) s.1)
                            _ w.bytes (patch.value, t.1) _ w.reads
                            (rw (entry patch r m empty) (Reads-pure (patch, t.1))))))))));
      }
    where
      present_byte : (b : Bool) → (flag b ≤ 1) × (not (flag b == 0) ≡ b)
      present_byte true = (omega arith, refl)
      present_byte false = (omega arith, refl)

  splice-Wrote :
      patch.replace ≡ false
      → patch.is_map ≡ false
      → encode_splice text_output patch s ≡ ok t
      → Wrote (get_splice patch.property patch.path) s t patch
  unfolding encode_splice get_splice
  splice-Wrote r m h =
      let (good, k) =
        throw_if-eq-ok
          (ltb 256 patch.position
            || ltb 256 patch.remove
            || ltb 256 (length patch.insert)
            || not (is_empty patch.key)
            || is_some patch.value)
          _ _ h in
      let w =
        insert-Wrote patch.insert (length patch.path + 1) _ t (omega (arith, short)) fits.1 k in
      let p : patch.position ≤ 256 = ground (arith, good) in
      let q : patch.remove ≤ 256 = ground (arith, good) in
      let n : length patch.insert ≤ 256 = ground (arith, good) in
      record {
        bytes =
            put_uint 2 patch.position
            ++ (put_uint 2 patch.remove ++ (put_uint 2 (length patch.insert) ++ w.bytes));
        output = w.output ∙ simp append_assoc;
        reads =
            Reads-bind (get_uint invalid_argument 2) _ _ _ patch.position _
              (Reads-uint invalid_argument 2 patch.position (omega (arith, p)) (omega (arith, p)))
              (Reads-bind (get_uint invalid_argument 2) _ _ _ patch.remove _
                (Reads-uint invalid_argument 2 patch.remove (omega (arith, q)) (omega (arith, q)))
                (Reads-bind (get_uint invalid_argument 2) _ _ _ (length patch.insert) _
                  (Reads-uint invalid_argument 2 (length patch.insert) (omega (arith, n))
                    (omega (arith, n)))
                  (Reads-guard _ invalid_argument _ _ _ (ground (arith, good)) (
                    Reads-end
                      (get_items (decode_value (9 - (length patch.path + 1))) (length patch.insert)
                        s.1)
                      _ w.bytes (patch.insert, t.1) _ w.reads
                      (rw (splice patch r m good) (Reads-pure (patch, t.1)))))));
      }

  by_kind :
      (r m : Bool) (x y z : Outcome (Bytes × ℕ))
      → (r ≡ true → x ≡ ok t → Wrote (get_replacement patch.property patch.path) s t patch)
      → (r ≡ false → m ≡ true → y ≡ ok t → Wrote (get_entry patch.property patch.path) s t patch)
      → (r ≡ false → m ≡ false → z ≡ ok t → Wrote (get_splice patch.property patch.path) s t patch)
      → (if r then x else if m then y else z) ≡ ok t
      → Wrote (get_kind (if r then 2 else if m then 1 else 0) patch.property patch.path) s t patch
  unfolding get_kind
  by_kind true m x y z f g h e = f refl e
  by_kind false true x y z f g h e = g refl refl e
  by_kind false false x y z f g h e = h refl refl e

  pub kind-Wrote :
      encode_kind text_output patch s ≡ ok t
      → Wrote (get_kind (kind text_output patch) patch.property patch.path) s t patch
  unfolding encode_kind
  kind-Wrote = by_kind patch.replace patch.is_map _ _ _ replacement-Wrote entry-Wrote splice-Wrote

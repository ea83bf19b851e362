-- ===== src/Attribute/RoundTrip.antt =====
-- `decode_value` of src/attribute_wire.cpp reads back what `encode_value` wrote into a string.
use fsnet.Base.{
  refl, ℕ, ok, ltb, ◌==◌, ◌||◌, ◌+◌, ap, sym, ◌∙◌, length, ◌≡◌, not, [], ◌∷◌, ◌++◌, arith, Bytes,
}
use fsnet.Base.Errors.{throw_if-eq-ok, >>=-eq-ok, ok-subst}
use fsnet.Base.Int.{to_u64}
use fsnet.Base.Maps.{emplace_last, IsSorted}
use fsnet.Attribute.{
  AttributeValue, integer, number, boolean, string, structure, array, dictionary, Fields, no_field,
  field, Items, no_item, item, entries, elements, is_finite, bad_name, bad_map_key, AttributeStruct,
}
use fsnet.Attribute.Decode.{get_fields, get_entries, get_items, decode_value}
use fsnet.Attribute.Encode.{
  begin_value, within_limit, text_output, encode_value, encode_fields, encode_entries, encode_items,
  write, write_name,
}
use fsnet.Attribute.Tagged.{
  Reads-integer, Reads-number, Reads-boolean, Reads-string, Reads-structure, Reads-array,
  Reads-dictionary,
}
use fsnet.Attribute.Written.{
  IsValue, AreFields, AreItems, Wrote, pred, begin_inv, limit_inv, deeper, Wrote-node, Reads-field,
  Reads-entry, Reads-item,
}
use fsnet.Wire.{Reader, flag, put_uint}
use fsnet.Wire.Reads.{Reads, Reads-pure}
use mathlib.Core.List.{append_assoc, append-nil}
use mathlib.Core.Path.{subst}

-- A node whose last statement is the test of the size.
limited :
    (levels : ℕ) (value : AttributeValue) (s u v : Bytes × ℕ)
    → within_limit text_output u ≡ ok v
    → Wrote (decode_value levels) s u value
    → Wrote (decode_value levels) s v value
limited levels value s u v h w =
    subst (λ x. Wrote (decode_value levels) s x value) (limit_inv u v h) w

pub entry_bytes :
    (out size name body rest : Bytes) {mid last : Bytes}
    → mid ≡ ((out ++ size) ++ name) ++ body
    → last ≡ mid ++ rest
    → last ≡ out ++ ((size ++ name) ++ (body ++ rest))
entry_bytes out size name body rest h k = k ∙ ap (λ (x : Bytes). x ++ rest) h ∙ simp append_assoc

pub nothing_written {ℓ} :
    {A : Type ℓ} (reader : ℕ → Reader (A × ℕ)) (s t : Bytes × ℕ) (a : A)
    → Reads (reader s.1) [] (a, s.1)
    → ok s ≡ ok t
    → Wrote reader s t a
nothing_written reader s t a r h =
    ok-subst (λ x. Wrote reader s x a) h
      (record { bytes = []; output = sym (append-nil s.0); reads = r })

pub no_fields :
    (get : ℕ → Reader (AttributeValue × ℕ)) (before : AttributeStruct) (left : ℕ)
    → Reads (get_fields get 0 before left) [] (before ++ [], left)
unfolding get_fields
no_fields get before left = rw (append-nil before) (Reads-pure (before, left))

no_entries :
    (get : ℕ → Reader (AttributeValue × ℕ)) (before : AttributeStruct) (left : ℕ)
    → Reads (get_entries get 0 before left) [] (before ++ [], left)
unfolding get_entries
no_entries get before left = rw (append-nil before) (Reads-pure (before, left))

no_items :
    (get : ℕ → Reader (AttributeValue × ℕ)) (left : ℕ) → Reads (get_items get 0 left) [] ([], left)
unfolding get_items
no_items get left = Reads-pure ([], left)

mutual
  unfolding encode_value IsValue

  pub Wrote-value :
      (value : AttributeValue) (levels depth : ℕ) (s t : Bytes × ℕ)
      → depth + levels ≡ 9
      → IsValue value
      → encode_value text_output value depth s ≡ ok t
      → Wrote (decode_value levels) s t value
  Wrote-value (integer n) levels depth s t e v h =
      let (u, b, k) = >>=-eq-ok (begin_value text_output depth (integer n) s) _ h in
      limited levels (integer n) s _ t k (
        Wrote-node levels depth (integer n) s u (u.0 ++ put_uint 8 (to_u64 n), u.1)
          (put_uint 8 (to_u64 n)) e (omega arith) b refl
          (Reads-integer n u.1 (decode_value (pred levels)) v))
  Wrote-value (number n) levels depth s t e v h =
      let (u, b, k) = >>=-eq-ok (begin_value text_output depth (number n) s) _ h in
      let (finite, l) = throw_if-eq-ok (not (is_finite n)) _ _ k in
      limited levels (number n) s _ t l (
        Wrote-node levels depth (number n) s u (u.0 ++ put_uint 8 n, u.1) (put_uint 8 n) e
          (omega arith) b refl (Reads-number n u.1 (decode_value (pred levels)) v finite))
  Wrote-value (boolean x) levels depth s t e v h =
      let (u, b, k) = >>=-eq-ok (begin_value text_output depth (boolean x) s) _ h in
      limited levels (boolean x) s _ t k (
        Wrote-node levels depth (boolean x) s u (u.0 ++ put_uint 1 (flag x), u.1)
          (put_uint 1 (flag x)) e (omega arith) b refl
          (Reads-boolean x u.1 (decode_value (pred levels))))
  Wrote-value (string text) levels depth s t e v h =
      let (u, b, k) = >>=-eq-ok (begin_value text_output depth (string text) s) _ h in
      let (short, l) = throw_if-eq-ok (ltb 65536 (length text)) _ _ k in
      limited levels (string text) s _ t l (
        Wrote-node levels depth (string text) s u ((u.0 ++ put_uint 4 (length text)) ++ text, u.1)
          (put_uint 4 (length text) ++ text) e (omega arith) b
          (append_assoc u.0 (put_uint 4 (length text)) text)
          (Reads-string text u.1 (decode_value (pred levels)) short))
  Wrote-value (structure fields) levels depth s t e v h =
      let (u, b, k) = >>=-eq-ok (begin_value text_output depth (structure fields) s) _ h in
      let (good, l) =
        throw_if-eq-ok (length (entries fields) == 0 || ltb 64 (length (entries fields))) _ _ k in
      let (w, m, z) =
        >>=-eq-ok
          (encode_fields text_output fields (depth + 1)
            (write text_output (put_uint 1 (length (entries fields))) u))
          _ l in
      let (le, _, _) = begin_inv depth (structure fields) s u b in
      let r =
        Wrote-fields fields (pred levels) (depth + 1)
          (write text_output (put_uint 1 (length (entries fields))) u) w []
          (deeper depth levels e le) v.0 v.1 m in
      limited levels (structure fields) s w t z (
        Wrote-node levels depth (structure fields) s u w
          (put_uint 1 (length (entries fields)) ++ r.bytes) e (omega arith) b
          (r.output ∙ append_assoc u.0 _ r.bytes)
          (Reads-structure (decode_value (pred levels)) (length (entries fields)) u.1 w.1 r.bytes
            fields good r.reads))
  Wrote-value (dictionary fields) levels depth s t e v h =
      let (u, b, k) = >>=-eq-ok (begin_value text_output depth (dictionary fields) s) _ h in
      let (good, l) = throw_if-eq-ok (ltb 256 (length (entries fields))) _ _ k in
      let (w, m, z) =
        >>=-eq-ok
          (encode_entries text_output fields (depth + 1)
            (write text_output (put_uint 2 (length (entries fields))) u))
          _ l in
      let (le, _, _) = begin_inv depth (dictionary fields) s u b in
      let r =
        Wrote-entries fields (pred levels) (depth + 1)
          (write text_output (put_uint 2 (length (entries fields))) u) w []
          (deeper depth levels e le) v.0 v.1 m in
      limited levels (dictionary fields) s w t z (
        Wrote-node levels depth (dictionary fields) s u w
          (put_uint 2 (length (entries fields)) ++ r.bytes) e (omega arith) b
          (r.output ∙ append_assoc u.0 _ r.bytes)
          (Reads-dictionary (decode_value (pred levels)) (length (entries fields)) u.1 w.1 r.bytes
            fields good r.reads))
  Wrote-value (array items) levels depth s t e v h =
      let (u, b, k) = >>=-eq-ok (begin_value text_output depth (array items) s) _ h in
      let (good, l) = throw_if-eq-ok (ltb 256 (length (elements items))) _ _ k in
      let (w, m, z) =
        >>=-eq-ok
          (encode_items text_output items (depth + 1)
            (write text_output (put_uint 2 (length (elements items))) u))
          _ l in
      let (le, _, _) = begin_inv depth (array items) s u b in
      let r =
        Wrote-items items (pred levels) (depth + 1)
          (write text_output (put_uint 2 (length (elements items))) u) w (deeper depth levels e le)
          v m in
      limited levels (array items) s w t z (
        Wrote-node levels depth (array items) s u w
          (put_uint 2 (length (elements items)) ++ r.bytes) e (omega arith) b
          (r.output ∙ append_assoc u.0 _ r.bytes)
          (Reads-array (decode_value (pred levels)) (length (elements items)) u.1 w.1 r.bytes items
            good r.reads))

  pub Wrote-fields :
      (fields : Fields) (levels depth : ℕ) (s t : Bytes × ℕ) (before : AttributeStruct)
      → depth + levels ≡ 9
      → AreFields fields
      → IsSorted (before ++ entries fields)
      → encode_fields text_output fields depth s ≡ ok t
      → Wrote
          (get_fields (decode_value levels) (length (entries fields)) before)
          s
          t
          (before ++ entries fields)
  Wrote-fields no_field levels depth s t before e v sorted h =
      nothing_written (get_fields (decode_value levels) 0 before) s t (before ++ [])
        (no_fields (decode_value levels) before s.1) h
  Wrote-fields (field name value fields) levels depth s t before e v sorted h =
      let (good, k) = throw_if-eq-ok (bad_name name) _ _ h in
      let (u, first, rest) =
        >>=-eq-ok (encode_value text_output value depth (write_name text_output name s)) _ k in
      let r = Wrote-value value levels depth (write_name text_output name s) u e v.0 first in
      let q =
        Wrote-fields fields levels depth u t (before ++ ((name, value) ∷ [])) e v.1
          (rw (append_assoc before ((name, value) ∷ []) (entries fields)) sorted) rest in
      record {
        bytes = (put_uint 1 (length name) ++ name) ++ (r.bytes ++ q.bytes);
        output = entry_bytes s.0 (put_uint 1 (length name)) name r.bytes q.bytes r.output q.output;
        reads =
            Reads-field (decode_value levels) (length (entries fields)) s.1 u.1 t.1 name value
              before (before ++ ((name, value) ∷ [])) _ r.bytes q.bytes good
              (emplace_last name value before (entries fields) sorted) r.reads
              (rw (append_assoc before ((name, value) ∷ []) (entries fields)) at q.reads);
      }

  pub Wrote-entries :
      (fields : Fields) (levels depth : ℕ) (s t : Bytes × ℕ) (before : AttributeStruct)
      → depth + levels ≡ 9
      → AreFields fields
      → IsSorted (before ++ entries fields)
      → encode_entries text_output fields depth s ≡ ok t
      → Wrote
          (get_entries (decode_value levels) (length (entries fields)) before)
          s
          t
          (before ++ entries fields)
  Wrote-entries no_field levels depth s t before e v sorted h =
      nothing_written (get_entries (decode_value levels) 0 before) s t (before ++ [])
        (no_entries (decode_value levels) before s.1) h
  Wrote-entries (field name value fields) levels depth s t before e v sorted h =
      let (good, k) = throw_if-eq-ok (bad_map_key name) _ _ h in
      let (u, first, rest) =
        >>=-eq-ok (encode_value text_output value depth (write_name text_output name s)) _ k in
      let r = Wrote-value value levels depth (write_name text_output name s) u e v.0 first in
      let q =
        Wrote-entries fields levels depth u t (before ++ ((name, value) ∷ [])) e v.1
          (rw (append_assoc before ((name, value) ∷ []) (entries fields)) sorted) rest in
      record {
        bytes = (put_uint 1 (length name) ++ name) ++ (r.bytes ++ q.bytes);
        output = entry_bytes s.0 (put_uint 1 (length name)) name r.bytes q.bytes r.output q.output;
        reads =
            Reads-entry (decode_value levels) (length (entries fields)) s.1 u.1 t.1 name value
              before (before ++ ((name, value) ∷ [])) _ r.bytes q.bytes good
              (emplace_last name value before (entries fields) sorted) r.reads
              (rw (append_assoc before ((name, value) ∷ []) (entries fields)) at q.reads);
      }

  pub Wrote-items :
      (items : Items) (levels depth : ℕ) (s t : Bytes × ℕ)
      → depth + levels ≡ 9
      → AreItems items
      → encode_items text_output items depth s ≡ ok t
      → Wrote (get_items (decode_value levels) (length (elements items))) s t (elements items)
  Wrote-items no_item levels depth s t e v h =
      nothing_written (get_items (decode_value levels) 0) s t []
        (no_items (decode_value levels) s.1) h
  Wrote-items (item value items) levels depth s t e v h =
      let (u, first, rest) = >>=-eq-ok (encode_value text_output value depth s) _ h in
      let r = Wrote-value value levels depth s u e v.0 first in
      let q = Wrote-items items levels depth u t e v.1 rest in
      record {
        bytes = r.bytes ++ q.bytes;
        output =
            q.output ∙ ap (λ (x : Bytes). x ++ q.bytes) r.output ∙ append_assoc s.0 r.bytes q.bytes;
        reads =
            Reads-item (decode_value levels) (length (elements items)) s.1 u.1 t.1 value
              (elements items) r.bytes q.bytes r.reads q.reads;
      }

-- Whatever `encode_value` writes at the outermost level is added to the output, and `decode_value`,
-- given as many nodes as the encoder had, takes exactly those bytes off any input, returns the
-- value and leaves as many nodes as the encoder did. The value is one that the C++ types can hold.
pub decode_value-encode_value :
    (value : AttributeValue) (out written : Bytes) (nodes left : ℕ)
    → IsValue value
    → encode_value text_output value 0 (out, nodes) ≡ ok (written, left)
    → (bytes : Bytes) × (written ≡ out ++ bytes)
      × ((rest : Bytes) → decode_value 9 nodes (bytes ++ rest) ≡ ok ((value, left), rest))
decode_value-encode_value value out written nodes left v h =
    let w = Wrote-value value 9 0 (out, nodes) (written, left) refl v h in
    (w.bytes, w.output, λ rest. w.reads.at rest)

-- ===== src/AttributeUpdate/Image.antt =====
-- The values of an image are read back, and the record keeps to its limit: `encode_image` and
-- `encode_update` of src/attribute_wire.cpp.
use fsnet.Base.{
  ℕ, ok, true, ltb, length, ◌≡◌, ◌≤◌, refl, List, Bool, [], ◌∷◌, ◌++◌, arith, Bytes, is_empty,
  is_some,
}
use fsnet.Base.Errors.{throw_if-eq-ok, >>=-eq-ok, ok-subst}
use fsnet.Base.Maps.{IsSorted, emplace_last, find}
use fsnet.Attribute.{AttributeStruct, bad_name, to_fields, size_limit}
use fsnet.Attribute.Decode.{get_fields, decode_value}
use fsnet.Attribute.Encode.{text_output, write, write_name, encode_value, within_limit}
use fsnet.Attribute.RoundTrip.{Wrote-value, nothing_written, no_fields, entry_bytes}
use fsnet.Attribute.Written.{Wrote, AreFields, limit_inv, Reads-field}
use fsnet.AttributeUpdate.{AttributePatch}
use fsnet.AttributeUpdate.Encode.{
  kind, encode_kind, encode_paths, encode_values, encode_patch, encode_patches,
}
use fsnet.Wire.{put_uint}
use mathlib.Core.List.{append_assoc}

pub values-Wrote :
    (values before : AttributeStruct) (s t : Bytes × ℕ)
    → AreFields (to_fields values)
    → IsSorted (before ++ values)
    → encode_values text_output values s ≡ ok t
    → Wrote (get_fields (decode_value 9) (length values) before) s t (before ++ values)
unfolding encode_values AreFields
values-Wrote [] before s t v sorted h =
    nothing_written (get_fields (decode_value 9) 0 before) s t (before ++ [])
      (no_fields (decode_value 9) before s.1) h
values-Wrote ((name, value) ∷ values) before s t v sorted h =
    let (good, k) = throw_if-eq-ok (bad_name name) _ _ h in
    let (u, first, l) =
      >>=-eq-ok (encode_value text_output value 0 (write_name text_output name s)) _ k in
    let (w, limit, rest) = >>=-eq-ok (within_limit text_output u) _ l in
    let r = Wrote-value value 9 0 (write_name text_output name s) u refl v.0 first in
    let q =
      values-Wrote values (before ++ ((name, value) ∷ [])) u t v.1
        (rw (append_assoc before ((name, value) ∷ []) values) sorted)
        (rw (limit_inv u w limit) rest) in
    record {
      bytes = (put_uint 1 (length name) ++ name) ++ (r.bytes ++ q.bytes);
      output = entry_bytes s.0 (put_uint 1 (length name)) name r.bytes q.bytes r.output q.output;
      reads =
          Reads-field (decode_value 9) (length values) s.1 u.1 t.1 name value before
            (before ++ ((name, value) ∷ [])) _ r.bytes q.bytes good
            (emplace_last name value before values sorted) r.reads
            (rw (append_assoc before ((name, value) ∷ []) values) at q.reads);
    }

within : (s t : Bytes × ℕ) → within_limit text_output s ≡ ok t → length t.0 ≤ size_limit
within s t h =
    let (small, same) = throw_if-eq-ok (ltb size_limit (length s.0)) _ _ h in
    let le : length s.0 ≤ size_limit = ground (arith, small) in
    ok-subst (λ x. length x.0 ≤ size_limit) same le

pub encode_values-size_limit :
    (values : AttributeStruct) (s t : Bytes × ℕ)
    → length s.0 ≤ size_limit
    → encode_values text_output values s ≡ ok t
    → length t.0 ≤ size_limit
unfolding encode_values
encode_values-size_limit [] s t small h = ok-subst (λ x. length x.0 ≤ size_limit) h small
encode_values-size_limit ((name, value) ∷ values) s t small h =
    let (good, k) = throw_if-eq-ok (bad_name name) _ _ h in
    let (u, first, l) =
      >>=-eq-ok (encode_value text_output value 0 (write_name text_output name s)) _ k in
    let (w, limit, rest) = >>=-eq-ok (within_limit text_output u) _ l in
    encode_values-size_limit values w t (within u w limit) rest

encode_patch-size_limit :
    (patch : AttributePatch) (paths : Bool) (s t : Bytes × ℕ)
    → encode_patch text_output patch paths s ≡ ok t
    → length t.0 ≤ size_limit
unfolding encode_patch
encode_patch-size_limit patch paths s t h =
    let (name, k) = throw_if-eq-ok (bad_name patch.property) _ _ h in
    let (short, l) = throw_if-eq-ok (ltb 8 (length patch.path)) _ _ k in
    let (u, m, n) =
      >>=-eq-ok
        (encode_paths text_output paths patch.path (write_name text_output patch.property s)) _ l in
    let (v, o, z) =
      >>=-eq-ok
        (encode_kind text_output patch (write text_output (put_uint 1 (kind text_output patch)) u))
        _ n in
    within v t z

pub encode_patches-size_limit :
    (values : AttributeStruct) (paths : Bool) (patches : List AttributePatch) (s t : Bytes × ℕ)
    → (is_empty patches ≡ true → length s.0 ≤ size_limit)
    → encode_patches text_output values paths patches s ≡ ok t
    → length t.0 ≤ size_limit
unfolding encode_patches
encode_patches-size_limit values paths [] s t small h =
    ok-subst (λ x. length x.0 ≤ size_limit) h (small refl)
encode_patches-size_limit values paths (patch ∷ patches) s t small h =
    let (new, k) = throw_if-eq-ok (is_some (find patch.property values)) _ _ h in
    let (u, first, rest) = >>=-eq-ok (encode_patch text_output patch paths s) _ k in
    encode_patches-size_limit values paths patches u t
      (λ e. encode_patch-size_limit patch paths s u first) rest

-- ===== src/AttributeUpdate/Written.antt =====
-- What `encode_update` of src/attribute_wire.cpp writes: the image, and the patches after it.
use fsnet.Base.{
  ◌∷◌, List, length-append, ◌∙◌, ap, ℕ, true, false, ltb, ◌==◌, ◌||◌, ◌&&◌, length, ◌≡◌, not, ◌≤◌,
  ◌<◌, Bool, [], ◌++◌, arith, Bytes,
}
use fsnet.Base.Errors.{throw_if-eq-ok, ok, invalid_argument}
use fsnet.Base.Texts.{is_empty, codes}
use fsnet.Attribute.{size_limit, node_limit}
use fsnet.Attribute.Decode.{get_fields, decode_value}
use fsnet.Attribute.Encode.{write, text_output}
use fsnet.AttributeUpdate.{field_paths, AttributeUpdate}
use fsnet.AttributeUpdate.Body.{image_bytes, UpdateFits}
use fsnet.AttributeUpdate.Decode.{get_all_patches}
use fsnet.AttributeUpdate.Encode.{encode_patches, write_image, encode_rest, encode_image}
use fsnet.AttributeUpdate.Image.{encode_patches-size_limit, encode_values-size_limit, values-Wrote}
use fsnet.AttributeUpdate.Patches.{patches-Reads, PatchesFit}
use fsnet.Wire.{put_uint, get_uint, flag}
use fsnet.Wire.Reads.{Reads-bind, Reads-guard, Reads, Reads-uint}
use fsnet.Wire.RoundTrip.{length-put_uint}
use mathlib.Core.List.{append_assoc}

record_bytes :
    (m a b c d v p : Bytes)
    → (((((m ++ a) ++ b) ++ c) ++ d) ++ v) ++ p ≡ m ++ (a ++ (b ++ (c ++ (d ++ (v ++ p)))))
record_bytes m a b c d v p = simp append_assoc

pub short_head :
    (a b c d : Bytes)
    → length a ≡ 1
    → length b ≡ 8
    → length c ≡ 8
    → length d ≡ 2
    → length ((((codes "FSA1" ++ a) ++ b) ++ c) ++ d) ≤ size_limit
short_head a b c d h1 h2 h3 h4 = omega (
  arith,
  length-append (((codes "FSA1" ++ a) ++ b) ++ c) d,
  length-append ((codes "FSA1" ++ a) ++ b) c,
  length-append (codes "FSA1" ++ a) b,
  length-append (codes "FSA1") a,
)

some_length {ℓ} : {A : Type ℓ} (xs : List A) → is_empty xs ≡ false → 0 < length xs
some_length [] h = cc
some_length (x ∷ xs) h = omega arith

-- An image that was written, with what follows it.
pub record Image (update : AttributeUpdate) (t : Bytes × ℕ) : Type 0 where
  pub values : Bytes
  pub output :
      (patches : Bytes) → t.0 ++ patches ≡ codes "FSA1" ++ image_bytes update (values ++ patches)
  pub good :
      (ltb 256 (length update.values)
        || ltb update.revision update.base
        || (update.snapshot && not (update.base == 0)))
      ≡ false
  pub reads :
      Reads
        (get_fields (decode_value 9) (length update.values) [] node_limit)
        values
        (update.values, t.1)
  pub small : length t.0 ≤ size_limit

pub Image-update :
    (update : AttributeUpdate) (t : Bytes × ℕ)
    → UpdateFits update
    → encode_image text_output update.values update.base update.revision update.snapshot
        ([], node_limit)
      ≡ ok t
    → Image update t
unfolding encode_image
Image-update update t fits h =
    let (good, k) =
      throw_if-eq-ok
        (ltb 256 (length update.values)
          || ltb update.revision update.base
          || (update.snapshot && not (update.base == 0)))
        _ _ h in
    let start =
      write_image text_output update.values update.base update.revision update.snapshot
        ([], node_limit) in
    let w = values-Wrote update.values [] start t fits.values fits.sorted k in
    record {
      values = w.bytes;
      output = λ patches.
          ap (λ (x : Bytes). x ++ patches) w.output
          ∙ record_bytes (codes "FSA1") (put_uint 1 (flag update.snapshot)) (put_uint 8 update.base)
              (put_uint 8 update.revision) (put_uint 2 (length update.values)) w.bytes patches;
      good = good;
      reads = w.reads;
      small =
          encode_values-size_limit update.values start t
            (short_head (put_uint 1 (flag update.snapshot)) (put_uint 8 update.base)
              (put_uint 8 update.revision) (put_uint 2 (length update.values))
              (length-put_uint 1 (flag update.snapshot)) (length-put_uint 8 update.base)
              (length-put_uint 8 update.revision) (length-put_uint 2 (length update.values)))
            k;
    }

pub Reads-all_patches :
    (paths : Bool) (update : AttributeUpdate) (u t : Bytes × ℕ)
    → PatchesFit update.patches
    → is_empty update.patches ≡ false
    → field_paths update.patches ≡ paths
    → encode_rest text_output update u ≡ ok t
    → (bytes : Bytes) × (t.0 ≡ u.0 ++ bytes)
      × (length t.0 ≤ size_limit)
      × Reads (get_all_patches true paths update.snapshot update.values u.1) bytes update.patches
unfolding encode_rest get_all_patches
Reads-all_patches paths update u t fits some_patch e h =
    let (good, k) =
      throw_if-eq-ok (update.snapshot || ltb 256 (length update.patches)) _ _
        (rw some_patch at h) in
    let s = write text_output (put_uint 2 (length update.patches)) u in
    let l : encode_patches text_output update.values paths update.patches s ≡ ok t = rw e at k in
    let (bytes, output, r) =
      patches-Reads update.values paths update.patches s t fits (λ f. e ∙ f) l in
    (
      put_uint 2 (length update.patches) ++ bytes,
      output ∙ append_assoc u.0 (put_uint 2 (length update.patches)) bytes,
      encode_patches-size_limit update.values paths update.patches s t (λ f. cc) l,
      Reads-guard _ invalid_argument _ _ _ (ground (arith, good)) (
          Reads-bind (get_uint invalid_argument 2) _ (put_uint 2 (length update.patches)) bytes
            (length update.patches) update.patches
            (Reads-uint invalid_argument 2 (length update.patches) (ground (arith, good))
              (ground (arith, good)))
            (Reads-guard (length update.patches == 0 || ltb 256 (length update.patches))
              invalid_argument _ bytes _
              (ground (arith, good, some_length update.patches some_patch)) r)),
    )

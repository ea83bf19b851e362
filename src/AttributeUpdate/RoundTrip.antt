-- ===== src/AttributeUpdate/RoundTrip.antt =====
-- `decode_attributes` of src/attribute_wire.cpp reads back what `encode_attributes` wrote.
use fsnet.Base.{
  if◌then◌else◌, sym, inr, inl, ◌∷◌, List, ◌∙◌, ap, ℕ, true, false, length, ◌≡◌, ◌≤◌, refl, Bool,
  [], ◌++◌, Bytes,
}
use fsnet.Base.Errors.{ok-injective, >>=-eq-ok, ok}
use fsnet.Base.Tests.{Bool-cases}
use fsnet.Base.Texts.{is_empty, codes}
use fsnet.Attribute.{size_limit, node_limit}
use fsnet.Attribute.Encode.{text_output}
use fsnet.AttributeUpdate.{field_paths, AttributeUpdate}
use fsnet.AttributeUpdate.Body.{image_bytes, UpdateFits, ReadsAll-image}
use fsnet.AttributeUpdate.Decode.{decode_attributes, get_all_patches, get_update}
use fsnet.AttributeUpdate.Encode.{
  set_version, encode_update, encode_attributes, encode_rest, encode_image,
}
use fsnet.AttributeUpdate.Versions.{read_one, read_two, read_three}
use fsnet.AttributeUpdate.Written.{Image, Image-update, Reads-all_patches}
use fsnet.Wire.Reads.{Reads-pure, ReadsAll}
use mathlib.Core.List.{append-nil}
use mathlib.Core.Path.{subst}

empty_list {ℓ} : {A : Type ℓ} (xs : List A) → is_empty xs ≡ true → xs ≡ []
empty_list [] h = refl
empty_list (x ∷ xs) h = cc

read_unpatched :
    (update : AttributeUpdate) (u t : Bytes × ℕ) (out : Bytes)
    → UpdateFits update
    → Image update u
    → is_empty update.patches ≡ true
    → encode_rest text_output update u ≡ ok t
    → ok (
        if is_empty update.patches
        then t.0
        else set_version (if field_paths update.patches then b'3' else b'2') t.0)
      ≡ ok out
    → decode_attributes out ≡ ok update
unfolding encode_rest get_all_patches
read_unpatched update u t out fits i none_left rest last =
    let same : u ≡ t = ok-injective (rw none_left at rest) in
    let whole : t.0 ≡ out = ok-injective (rw none_left at last) in
    let body = image_bytes update (i.values ++ []) in
    let e : codes "FSA1" ++ body ≡ out =
      sym (i.output []) ∙ append-nil u.0 ∙ ap (λ (x : Bytes × ℕ). x.0) same ∙ whole in
    let small : length (codes "FSA1" ++ body) ≤ size_limit =
      subst (λ x. length x ≤ size_limit) (sym (append-nil u.0) ∙ i.output []) i.small in
    subst (λ x. decode_attributes x ≡ ok update) e
      (read_one body update small (
        ReadsAll-image update false false i.values [] u.1 fits i.good i.reads
          (rw (empty_list update.patches none_left) (Reads-pure []))))

read_patched :
    (paths : Bool) (code : ℕ) (update : AttributeUpdate) (u t : Bytes × ℕ) (out : Bytes)
    → UpdateFits update
    → (i : Image update u) → is_empty update.patches ≡ false
    → field_paths update.patches ≡ paths
    → encode_rest text_output update u ≡ ok t
    → ok (set_version code t.0) ≡ ok out
    → ((body : Bytes)
        → length (codes "FSA1" ++ body) ≤ size_limit
        → ReadsAll (get_update true paths) body update
        → decode_attributes (set_version code (codes "FSA1" ++ body)) ≡ ok update)
    → decode_attributes out ≡ ok update
read_patched paths code update u t out fits i some_patch e rest last read =
    let (bytes, output, small, r) =
      Reads-all_patches paths update u t fits.patches some_patch e rest in
    let body = image_bytes update (i.values ++ bytes) in
    let whole : t.0 ≡ codes "FSA1" ++ body = output ∙ i.output bytes in
    subst (λ x. decode_attributes x ≡ ok update)
      (ap (set_version code) (sym whole) ∙ ok-injective last)
      (read body (subst (λ x. length x ≤ size_limit) whole small)
        (ReadsAll-image update true paths i.values bytes u.1 fits i.good i.reads r))

-- `encode_attributes` and `decode_attributes` are a round trip: an update whose numbers are 64-bit
-- words, whose values are in key order and whose values and patches the C++ types can hold, is read
-- back as it was, whichever of the three formats it was written in.
pub decode_attributes-encode_attributes :
    (update : AttributeUpdate) (out : Bytes)
    → UpdateFits update
    → encode_attributes update ≡ ok out
    → decode_attributes out ≡ ok update
unfolding encode_attributes encode_update set_version
decode_attributes-encode_attributes update out fits h =
    let (t, first, last) = >>=-eq-ok (encode_update text_output update []) _ h in
    let (u, image, rest) =
      >>=-eq-ok
        (encode_image text_output update.values update.base update.revision update.snapshot
          ([], node_limit))
        _ first in
    let i = Image-update update u fits image in
    elim (Bool-cases (is_empty update.patches)) [
      | inl none_left ↦ read_unpatched update u t out fits i none_left rest last
      | inr some_patch ↦ elim (Bool-cases (field_paths update.patches)) [
        | inl with_paths ↦
            read_patched true b'3' update u t out fits i some_patch with_paths rest
              (rw (some_patch, with_paths) at last) (λ body. read_three body update)
        | inr plain ↦
            read_patched false b'2' update u t out fits i some_patch plain rest
              (rw (some_patch, plain) at last) (λ body. read_two body update)
      ]
    ]

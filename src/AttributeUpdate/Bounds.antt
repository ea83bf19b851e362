-- ===== src/AttributeUpdate/Bounds.antt =====
-- What `encode_attributes` of src/attribute_wire.cpp writes keeps to the limit of its decoder.
use fsnet.Base.{
  ℕ, ◌≤◌, Bool, true, false, not, ◌||◌, ◌&&◌, ◌==◌, ltb, [], length, Bytes, if◌then◌else◌, ◌≡◌, sym,
  inl, inr, is_empty,
}
use fsnet.Base.Errors.{ok, >>=-eq-ok, throw_if-eq-ok, ok-subst}
use fsnet.Base.Tests.{Bool-cases}
use fsnet.Attribute.{size_limit, node_limit}
use fsnet.Attribute.Encode.{text_output, write}
use fsnet.AttributeUpdate.{AttributeUpdate, field_paths}
use fsnet.AttributeUpdate.Encode.{
  encode_update, encode_image, encode_rest, encode_attributes, write_image, set_version,
}
use fsnet.AttributeUpdate.Image.{encode_values-size_limit, encode_patches-size_limit}
use fsnet.AttributeUpdate.Size.{length-set_version}
use fsnet.AttributeUpdate.Written.{short_head}
use fsnet.Wire.{put_uint, flag}
use fsnet.Wire.RoundTrip.{length-put_uint}
use mathlib.Core.Path.{subst}

image_small :
    (update : AttributeUpdate) (t : Bytes × ℕ)
    → encode_image text_output update.values update.base update.revision update.snapshot
        ([], node_limit)
      ≡ ok t
    → length t.0 ≤ size_limit
unfolding encode_image
image_small update t h =
    let (_, k) =
      throw_if-eq-ok
        (ltb 256 (length update.values)
          || ltb update.revision update.base
          || (update.snapshot && not (update.base == 0)))
        _ _ h in
    encode_values-size_limit update.values
      (write_image text_output update.values update.base update.revision update.snapshot
        ([], node_limit))
      t
      (short_head (put_uint 1 (flag update.snapshot)) (put_uint 8 update.base)
        (put_uint 8 update.revision) (put_uint 2 (length update.values))
        (length-put_uint 1 (flag update.snapshot)) (length-put_uint 8 update.base)
        (length-put_uint 8 update.revision) (length-put_uint 2 (length update.values)))
      k

rest_small :
    (update : AttributeUpdate) (u t : Bytes × ℕ)
    → length u.0 ≤ size_limit
    → encode_rest text_output update u ≡ ok t
    → length t.0 ≤ size_limit
unfolding encode_rest
rest_small update u t small h = elim (Bool-cases (is_empty update.patches)) [
  | inl none_left ↦ ok-subst (λ x. length x.0 ≤ size_limit) (rw none_left at h) small
  | inr some_patch ↦
      let (_, k) =
        throw_if-eq-ok (update.snapshot || ltb 256 (length update.patches)) _ _
          (rw some_patch at h) in
      encode_patches-size_limit update.values (field_paths update.patches) update.patches
        (write text_output (put_uint 2 (length update.patches)) u) t (λ e. cc) k
]

-- Whatever `encode_attributes` returns is no longer than 1024 * 1024 bytes, for every update: the
-- tests after each value and each patch bound the whole record.
pub length-encode_attributes :
    (update : AttributeUpdate) (out : Bytes)
    → encode_attributes update ≡ ok out
    → length out ≤ size_limit
unfolding encode_attributes encode_update
length-encode_attributes update out h =
    let (t, first, last) = >>=-eq-ok (encode_update text_output update []) _ h in
    let (u, image, rest) =
      >>=-eq-ok
        (encode_image text_output update.values update.base update.revision update.snapshot
          ([], node_limit))
        _ first in
    let small = rest_small update u t (image_small update u image) rest in
    ok-subst (λ x. length x ≤ size_limit) last
      (go (is_empty update.patches) (if field_paths update.patches then b'3' else b'2') t.0 small)
  where
    go :
        (b : Bool) (code : ℕ) (x : Bytes)
        → length x ≤ size_limit
        → length (if b then x else set_version code x) ≤ size_limit
    go true code x h = h
    go false code x h = subst (λ n. n ≤ size_limit) (sym (length-set_version code x)) h

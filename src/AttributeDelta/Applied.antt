-- ===== src/AttributeDelta/Applied.antt =====
-- A replica applies the splice that src/attribute_wire.cpp writes for an array.
use fsnet.Base.{◌∙◌, take, refl, ◌≡◌, List, length, arith, ◌≤◌, ℕ, ◌+◌, ◌-◌, false}
use fsnet.Base.Errors.{ok}
use fsnet.Base.Lists.{length-take, length-drop, drop}
use fsnet.Base.Tests.{le→ltb_false, ltb}
use fsnet.Base.Texts.{Bytes}
use fsnet.Attribute.{AttributeValue, AttributeArray, array, elements, to_items, Items}
use fsnet.AttributeDelta.{common_prefix, common_suffix, splice_patch}
use fsnet.AttributeDelta.Spliced.{
  Follows, spliced, spliced-Follows, common_prefix-Prefix, suffix-Suffix,
}
use fsnet.AttributeReplica.Patch.{splice, patch_array, edit_target}
use fsnet.AttributeUpdate.{PathPart}

-- How much of the two arrays the common parts take.
record Counted (before after : AttributeArray) (p s : ℕ) : Type 0 where
  pub old_prefix : p ≤ length before
  pub new_prefix : p ≤ length after
  pub old_suffix : s ≤ length before - p
  pub new_suffix : s ≤ length after - p

counted :
    (before after : AttributeArray)
    → Counted before after
        (common_prefix before after)
        (common_suffix (common_prefix before after) before after)
unfolding common_suffix
counted before after =
    let p = common_prefix before after in
    let f = common_prefix-Prefix before after in
    let l = suffix-Suffix (drop p before) (drop p after) in
    record {
      old_prefix = f.left;
      new_prefix = f.right;
      old_suffix = omega (arith, l.left, length-drop p before);
      new_suffix = omega (arith, l.right, length-drop p after);
    }

splice-splice_patch :
    (property : Bytes) (path : List PathPart) (before after : AttributeArray)
    → length after ≤ 256
    → splice (splice_patch property path before after) before ≡ ok (spliced before after)
unfolding splice splice_patch
splice-splice_patch property path before after small =
    let p = common_prefix before after in
    let s = common_suffix p before after in
    let c = counted before after in
    let a : ltb (length before) p ≡ false = le→ltb_false _ _ c.old_prefix in
    let b : ltb (length before - p) (length before - p - s) ≡ false =
      le→ltb_false _ _ (omega arith) in
    let size : length (take (length after - p - s) (drop p after)) ≡ length after - p - s =
      omega (arith, length-take (length after - p - s) (drop p after), length-drop p after) in
    let d : ltb 256 (
          length before
          - (length before - p - s)
          + length (take (length after - p - s) (drop p after)))
        ≡ false =
      le→ltb_false _ _
        (omega (arith, size, small, c.old_prefix, c.old_suffix, c.new_prefix, c.new_suffix)) in
    rw (a, b, d) refl

is_splice :
    (property : Bytes) (path : List PathPart) (before after : AttributeArray)
    (value : AttributeValue)
    → edit_target (splice_patch property path before after) value
      ≡ patch_array (splice_patch property path before after) value
unfolding edit_target splice_patch
is_splice property path before after value = refl

-- The splice that is written for two arrays, the new one of at most 256 elements, is applied to the
-- old one without an exception. The result has the size of the new array, and each of its elements
-- is that of the new array or equal to it by `==`.
pub edit_target-splice_patch :
    (property : Bytes) (path : List PathPart) (before after : Items)
    → length (elements after) ≤ 256
    → (result : AttributeArray) × (edit_target
          (splice_patch property path (elements before) (elements after))
          (array before)
        ≡ ok (array (to_items result)))
      × Follows result (elements after)
unfolding patch_array
edit_target-splice_patch property path before after small = (
  spliced (elements before) (elements after),
  is_splice property path (elements before) (elements after) (array before)
      ∙ rw (splice-splice_patch property path (elements before) (elements after) small) refl,
  spliced-Follows (elements before) (elements after),
)

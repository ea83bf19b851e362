-- ===== src/AttributeDelta/Overlaid.antt =====
-- A delta of values as src/attribute_wire.cpp computes it, moved into the old image, gives the new one.
use fsnet.Base.{
  arith, ap, ◌∙◌, ◌||◌, sym, refl, inr, inl, ◌⊎◌, if◌then◌else◌, Bool-cases, ◌≡◌, Option, none,
  some, true, false, [], ◌∷◌, Bool,
}
use fsnet.Base.Maps.{find_below, Above-text_lt, Above, IsSorted, find}
use fsnet.Base.Texts.{text_eq→eq, text_eq, Bytes}
use fsnet.Attribute.{AttributeValue, AttributeStruct}
use fsnet.Attribute.Equality.{value_eq}
use fsnet.AttributeDelta.{changed, is_changed, lacks_name}
use fsnet.AttributeReplica.{overlay}
use fsnet.AttributeReplica.Overlay.{find-overlay}
use fsnet.EntitySchema.Collected.{or_found, IsSorted-tail}
use mathlib.Core.Path.{subst}

-- The same value or one that is equal to it by `==`, or none on both sides.
abbrev pub Agree : Option AttributeValue → Option AttributeValue → Type 0
Agree none none = Unit
Agree (some v) (some w) = (v ≡ w) ⊎ (value_eq v w ≡ true)
Agree none (some w) = ⊥
Agree (some v) none = ⊥

abbrev kept_if : Option AttributeValue → Option AttributeValue → Option AttributeValue
kept_if old none = none
kept_if old (some v) = if is_changed old v then some v else none

find-changed :
    (k : Bytes) (before after : AttributeStruct)
    → IsSorted after
    → find k (changed before after) ≡ kept_if (find k before) (find k after)
unfolding changed find
find-changed k before [] sorted = refl
find-changed k before ((j, v) ∷ after) sorted =
    by (Bool-cases (text_eq j k)) (Bool-cases (is_changed (find j before) v))
      (find-changed k before after (IsSorted-tail j v after sorted))
  where
    by :
        (text_eq j k ≡ true) ⊎ (text_eq j k ≡ false)
        → (is_changed (find j before) v ≡ true) ⊎ (is_changed (find j before) v ≡ false)
        → find k (changed before after) ≡ kept_if (find k before) (find k after)
        → find k (changed before ((j, v) ∷ after))
          ≡ kept_if (find k before) (find k ((j, v) ∷ after))
    by (inl e) (inl new) ih =
        let same = text_eq→eq j k e in
        let c : is_changed (find k before) v ≡ true =
          subst (λ x. is_changed (find x before) v ≡ true) same new in
        rw (new, e, c) refl
    by (inl e) (inr old) ih =
        let same = text_eq→eq j k e in
        let c : is_changed (find k before) v ≡ false =
          subst (λ x. is_changed (find x before) v ≡ false) same old in
        let below : find k after ≡ none =
          subst (λ x. find x after ≡ none) same (find_below j after sorted) in
        rw (old, e, c) (ih ∙ ap (kept_if (find k before)) below)
    by (inr e) (inl new) ih = rw (new, e) ih
    by (inr e) (inr old) ih = rw (old, e) ih

changed-Above :
    (k : Bytes) (before after : AttributeStruct) → Above k after → Above k (changed before after)
unfolding changed
changed-Above k before [] a = tt
changed-Above k before ((j, v) ∷ after) a = elim (Bool-cases (is_changed (find j before) v)) [
  | inl new ↦ rw new (a.0, changed-Above j before after a.1)
  | inr old ↦
      rw old (Above-text_lt k j (changed before after) a.0 (changed-Above j before after a.1))
]

changed-IsSorted :
    (before after : AttributeStruct) → IsSorted after → IsSorted (changed before after)
unfolding changed
changed-IsSorted before [] sorted = tt
changed-IsSorted before ((j, v) ∷ after) sorted = elim (Bool-cases (is_changed (find j before) v)) [
  | inl new ↦ rw new (changed-Above j before after sorted)
  | inr old ↦ rw old (changed-IsSorted before after (IsSorted-tail j v after sorted))
]

or_false : (a b : Bool) → (a || b) ≡ false → b ≡ false
or_false a b h = ground (arith, h)

names_kept :
    (k : Bytes) (before after : AttributeStruct)
    → lacks_name before after ≡ false
    → find k after ≡ none
    → find k before ≡ none
unfolding lacks_name find
names_kept k [] after kept absent = refl
names_kept k ((j, v) ∷ before) after kept absent = elim (Bool-cases (text_eq j k)) [
  | inl e ↦
      let gone : find j after ≡ none =
        subst (λ x. find x after ≡ none) (sym (text_eq→eq j k e)) absent in
      cc (rw gone at kept)
  | inr e ↦ rw e (names_kept k before after (or_false _ _ kept) absent)
]

agrees :
    (old new delta : Option AttributeValue)
    → delta ≡ kept_if old new
    → (new ≡ none → old ≡ none)
    → Agree (or_found delta old) new
agrees old none delta e kept = rw (e, kept refl) tt
agrees none (some v) delta e kept = rw e (inl refl)
agrees (some u) (some v) delta e kept = elim (Bool-cases (value_eq u v)) [
  | inl same ↦ rw (e, same) (inr same)
  | inr differs ↦ rw (e, differs) (inl refl)
]

-- Where every name of the old image is in the new one, the values that differ, moved into the old
-- image, give the new one: each name has the value that it has there or one that is equal to it by
-- `==`. The new image is in key order.
pub overlay-changed :
    (before after : AttributeStruct)
    → IsSorted after
    → lacks_name before after ≡ false
    → (k : Bytes) → Agree (find k (overlay before (changed before after))) (find k after)
overlay-changed before after sorted kept k =
    subst (λ o. Agree o (find k after))
      (sym (find-overlay k (changed before after) before (changed-IsSorted before after sorted)))
      (agrees (find k before) (find k after) (find k (changed before after))
        (find-changed k before after sorted) (names_kept k before after kept))

-- ===== src/AttributeDelta/Cheaper.antt =====
-- A delta of src/attribute_wire.cpp is never larger than the changed values written in full.
use fsnet.Base.{
  ℕ, ◌<◌, ◌≡◌, refl, sym, ap, ◌∙◌, ◌⊎◌, inl, inr, arith, Bool, true, false, not, ◌||◌, ltb, none,
  some, Option, [], ok, err, Bool-cases, length, ◌==◌, List, ok-injective,
}
use fsnet.Base.Errors.{
  Outcome, length_error, invalid_argument, ◌>>=◌, runtime_error, overflow_error, logic_error,
  out_of_range, bad_variant_access, entity_creation_conflict, replica_budget, ok-subst, >>=-eq-ok,
  throw_if-eq-ok,
}
use fsnet.Base.Tests.{ltb→lt}
use fsnet.Base.Texts.{is_empty}
use fsnet.Attribute.{AttributeStruct}
use fsnet.AttributeDelta.{
  changed, lacks_name, if_smaller, is_below, delta_update, sparse_or_full, sparse_parts,
  container_delta,
}
use fsnet.AttributeDelta.Delta.{
  add_confirmed, confirmed_of, full_image, best_of, field_parts, attribute_delta,
  attribute_write_delta,
}
use fsnet.AttributeUpdate.{AttributePatch, AttributeUpdate}
use fsnet.AttributeUpdate.Encode.{attribute_wire_size}
use mathlib.Core.Path.{subst}

-- The update `d` is `other`, or its record is smaller.
abbrev pub NotLarger : AttributeUpdate → AttributeUpdate → Type 0
NotLarger other d =
    (d ≡ other)
    ⊎ ((m n : ℕ) × (attribute_wire_size d ≡ ok m) × (attribute_wire_size other ≡ ok n) × (m < n))

if_smaller-NotLarger :
    (test : Outcome Bool) (smaller other d : AttributeUpdate)
    → (test ≡ ok true → NotLarger other smaller)
    → if_smaller test smaller other ≡ ok d
    → NotLarger other d
if_smaller-NotLarger (ok true) smaller other d won h = ok-subst (NotLarger other) h (won refl)
if_smaller-NotLarger (ok false) smaller other d won h = inl (sym (ok-injective h))
if_smaller-NotLarger (err length_error) smaller other d won h = inl (sym (ok-injective h))
if_smaller-NotLarger (err invalid_argument) smaller other d won h = cc
if_smaller-NotLarger (err runtime_error) smaller other d won h = cc
if_smaller-NotLarger (err overflow_error) smaller other d won h = cc
if_smaller-NotLarger (err logic_error) smaller other d won h = cc
if_smaller-NotLarger (err out_of_range) smaller other d won h = cc
if_smaller-NotLarger (err bad_variant_access) smaller other d won h = cc
if_smaller-NotLarger (err entity_creation_conflict) smaller other d won h = cc
if_smaller-NotLarger (err replica_budget) smaller other d won h = cc

NotLarger-trans :
    (full best d : AttributeUpdate) → NotLarger full best → NotLarger best d → NotLarger full d
NotLarger-trans full best d (inl same) q = subst (λ b. NotLarger b d) same q
NotLarger-trans full best d (inr smaller) (inl same) =
    subst (NotLarger full) (sym same) (inr smaller)
NotLarger-trans full best d (inr (m, n, e, f, less)) (inr (k, l, g, h, fewer)) =
    inr (k, n, g, f, omega (arith, less, fewer, ok-injective (sym e ∙ h)))

below-NotLarger :
    (smaller other : AttributeUpdate) (n : ℕ)
    → attribute_wire_size other ≡ ok n
    → is_below (attribute_wire_size smaller) n ≡ ok true
    → NotLarger other smaller
below-NotLarger smaller other n size h =
    let (m, own, less) = >>=-eq-ok (attribute_wire_size smaller) _ h in
    inr (m, n, own, size, ltb→lt m n (ok-injective less))

sparse_or_full-NotLarger :
    (sparse full d : AttributeUpdate) → sparse_or_full sparse full ≡ ok d → NotLarger full d
unfolding sparse_or_full
sparse_or_full-NotLarger sparse full d h =
    elim (Bool-cases (is_empty sparse.patches || ltb 256 (length sparse.patches))) [
      | inl plain ↦ inl (sym (ok-injective (rw plain at h)))
      | inr edited ↦
          let (n, size, chosen) = >>=-eq-ok (attribute_wire_size full) _ (rw edited at h) in
          if_smaller-NotLarger (is_below (attribute_wire_size sparse) n) sparse full d
            (below-NotLarger sparse full n size) chosen
    ]

best_of-NotLarger :
    (previous next best d : AttributeUpdate)
    (parts : Option (AttributeStruct × List AttributePatch))
    → best_of previous next best parts ≡ ok d
    → NotLarger best d
unfolding best_of
best_of-NotLarger previous next best d none h = inl (sym (ok-injective h))
best_of-NotLarger previous next best d (some parts) h = elim (Bool-cases (is_empty parts.1)) [
  | inl plain ↦ inl (sym (ok-injective (rw plain at h)))
  | inr edited ↦ if_smaller-NotLarger _ fields best d fewer (rw edited at h)
]
  where
    fields : AttributeUpdate
    fields = delta_update previous.revision next.revision parts.0 parts.1

    fewer :
        (attribute_wire_size fields >>= λ size. attribute_wire_size best >>= λ n. ok (ltb size n))
          ≡ ok true
        → NotLarger best fields
    fewer t =
        let (m, own, t1) = >>=-eq-ok (attribute_wire_size fields) _ t in
        let (n, size, less) = >>=-eq-ok (attribute_wire_size best) _ t1 in
        inr (m, n, own, size, ltb→lt m n (ok-injective less))

-- `container_delta` and `attribute_delta` return the new image where a name of the old one is gone
-- or the revision went down.
abbrev pub needs_image : AttributeUpdate → AttributeUpdate → Bool
needs_image previous next =
    lacks_name previous.values next.values || ltb next.revision previous.revision

-- The values that differ, each written in full.
abbrev pub plain_delta : AttributeUpdate → AttributeUpdate → AttributeUpdate
plain_delta previous next =
    delta_update previous.revision next.revision (changed previous.values next.values) []

abbrev pub Chosen : AttributeUpdate → AttributeUpdate → AttributeUpdate → Type 0
Chosen previous next d =
    ((needs_image previous next ≡ true) × (next.snapshot ≡ true) × (d ≡ next))
    ⊎ ((needs_image previous next ≡ false) × NotLarger (plain_delta previous next) d)

second_holds : (a b c d : Bool) → (not a || not b || c || d) ≡ false → b ≡ true
second_holds a b c d h = ground arith

container_delta-Chosen :
    (previous next d : AttributeUpdate)
    → container_delta previous next ≡ ok d
    → Chosen previous next d
unfolding container_delta
container_delta-Chosen previous next d h =
    let (images, h1) =
      throw_if-eq-ok
        (not previous.snapshot
          || not next.snapshot
          || not (is_empty previous.patches)
          || not (is_empty next.patches))
        invalid_argument _ h in
    elim (Bool-cases (needs_image previous next)) [
      | inl e ↦ inl (
        e,
        second_holds previous.snapshot next.snapshot _ _ images,
        sym (ok-injective (rw e at h1)),
      )
      | inr e ↦ inr (
        e,
        sparse_or_full-NotLarger (delta_update previous.revision next.revision parts.0 parts.1)
            (plain_delta previous next) d (rw e at h1),
      )
    ]
  where
    parts : AttributeStruct × List AttributePatch
    parts = sparse_parts previous.values (changed previous.values next.values)

-- Where `attribute_delta` returns an update, it is the new image if a name of the old one is gone or
-- the revision went down, and else the values that differ, each written in full, or an update whose
-- record is smaller than theirs.
pub attribute_delta-Chosen :
    (previous next d : AttributeUpdate)
    → attribute_delta previous next ≡ ok d
    → Chosen previous next d
unfolding attribute_delta
attribute_delta-Chosen previous next d h =
    let (best, e1, h1) = >>=-eq-ok (container_delta previous next) _ h in
    elim (container_delta-Chosen previous next best e1) [
      | inl (e, snapshot, same) ↦
          let whole : best.snapshot ≡ true =
            ap (λ (u : AttributeUpdate). u.snapshot) same ∙ snapshot in
          inl (e, snapshot, sym (ok-injective (rw whole at h1)) ∙ same)
      | inr (e, less) ↦ inr (
        e,
        elim (Bool-cases best.snapshot) [
          | inl whole ↦
              subst (NotLarger (plain_delta previous next)) (ok-injective (rw whole at h1)) less
          | inr sparse ↦
              let (parts, e2, h2) =
                >>=-eq-ok (field_parts previous.values next.values ([], [])) _ (rw sparse at h1) in
              NotLarger-trans (plain_delta previous next) best d less
                (best_of-NotLarger previous next best d parts h2)
        ],
      )
    ]

-- Where `attribute_write_delta` returns an update, it is the written values in full or an update
-- whose record is smaller.
pub attribute_write_delta-NotLarger :
    (confirmed : AttributeStruct) (confirmed_revision : ℕ) (values : AttributeStruct) (expected : ℕ)
    (d : AttributeUpdate)
    → attribute_write_delta confirmed confirmed_revision values expected ≡ ok d
    → NotLarger (delta_update expected expected values []) d
unfolding attribute_write_delta
attribute_write_delta-NotLarger confirmed confirmed_revision values expected d h =
    elim (Bool-cases (expected == confirmed_revision)) [
      | inr stale ↦ inl (sym (ok-injective (rw stale at h)))
      | inl current ↦
          let (delta, _, h1) =
            >>=-eq-ok
              (attribute_delta (full_image expected (confirmed_of confirmed values))
                (full_image expected values))
              _ (rw current at h) in
          let (n, size, chosen) =
            >>=-eq-ok (attribute_wire_size (delta_update expected expected values [])) _ h1 in
          let update : AttributeUpdate = record delta {
            values = add_confirmed confirmed values delta.values;
          } in
          if_smaller-NotLarger (is_below (attribute_wire_size update) n) update
            (delta_update expected expected values []) d
            (below-NotLarger update (delta_update expected expected values []) n size) chosen
    ]

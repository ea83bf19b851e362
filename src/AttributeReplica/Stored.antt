-- ===== src/AttributeReplica/Stored.antt =====
-- What `AttributeReplica::apply` of src/attribute_wire.cpp does with an update without patches.
use fsnet.Base.{
  ℕ, ◌≤◌, Bool, true, false, ltb, some, if◌then◌else◌, ◌≡◌, refl, sym, ap, ◌⊎◌, inl, inr, arith,
  is_empty,
}
use fsnet.Base.Errors.{ok, >>=-eq-ok, ok-injective, throw_if-eq-ok}
use fsnet.Base.Tests.{Bool-cases}
use fsnet.AttributeReplica.{overlay}
use fsnet.AttributeReplica.Apply.{
  Replica, image_with, image_size, store, unfit, apply, apply_plain, values,
}
use fsnet.AttributeUpdate.{AttributeUpdate}
use fsnet.AttributeUpdate.Encode.{attribute_wire_size}
use mathlib.Core.Path.{subst}

pub record Stored (max_image_bytes : ℕ) (update : AttributeUpdate) (r r2 : Replica) : Type 0 where
  pub image :
      r2.image
      ≡ some (
          image_with update.revision
            (if update.snapshot then update.values else overlay (values r) update.values))
  pub revision : r2.revision ≡ update.revision
  pub initialized : r2.initialized ≡ true
  pub bytes : r2.image_bytes ≤ max_image_bytes

pub store_inv :
    (max_image_bytes : ℕ) (update : AttributeUpdate) (r r2 : Replica) (done : Bool)
    → store max_image_bytes update r ≡ ok (done, r2)
    → (done ≡ true) × Stored max_image_bytes update r r2
unfolding store
store_inv max_image_bytes update r r2 done h =
    let (count, _, k) = >>=-eq-ok (image_size update r) _ h in
    let (small, same) = throw_if-eq-ok (ltb max_image_bytes count) _ _ k in
    let whole = ok-injective same in
    let size : count ≤ max_image_bytes = ground (arith, small) in
    (
      ap (λ (x : Bool × Replica). x.0) (sym whole),
      subst (λ (x : Bool × Replica). Stored max_image_bytes update r x.1) whole
          (record { image = refl; revision = refl; initialized = refl; bytes = size }),
    )

-- The update follows the image that is there, and is not older.
pub record Fits (update : AttributeUpdate) (r : Replica) : Type 0 where
  pub follows : update.snapshot ≡ false → (r.initialized ≡ true) × (update.base ≡ r.revision)
  pub newer : r.initialized ≡ true → r.revision ≤ update.revision

pub fit : (update : AttributeUpdate) (r : Replica) → unfit update r ≡ false → Fits update r
fit update r h = record {
  follows = λ s. (ground (arith, h, s), ground (arith, h, s));
  newer = λ i. ground (arith, h, i);
}

pub plain_inv :
    (max_image_bytes : ℕ) (update : AttributeUpdate) (r r2 : Replica) (done : Bool)
    → apply_plain max_image_bytes update r ≡ ok (done, r2)
    → ((done ≡ false) × (r2 ≡ r))
      ⊎ ((done ≡ true) × Fits update r × Stored max_image_bytes update r r2)
unfolding apply_plain
plain_inv max_image_bytes update r r2 done h =
    let (size, _, k) = >>=-eq-ok (attribute_wire_size update) _ h in
    elim (Bool-cases (unfit update r)) [
      | inl bad ↦
          let same = ok-injective (rw bad at k) in
          inl (
            ap (λ (x : Bool × Replica). x.0) (sym same),
            ap (λ (x : Bool × Replica). x.1) (sym same),
          )
      | inr good ↦
          let (yes_done, stored) = store_inv max_image_bytes update r r2 done (rw good at k) in
          inr (yes_done, fit update r good, stored)
    ]

pub plain_apply :
    (max_image_bytes : ℕ) (update : AttributeUpdate) (r r2 : Replica) (done : Bool)
    → is_empty update.patches ≡ true
    → apply max_image_bytes update r ≡ ok (done, r2)
    → ((done ≡ false) × (r2 ≡ r) × (unfit update r ≡ true))
      ⊎ ((done ≡ true) × Fits update r × Stored max_image_bytes update r r2)
unfolding apply
plain_apply max_image_bytes update r r2 done none_left h =
    let (size, _, k) = >>=-eq-ok (attribute_wire_size update) _ h in
    elim (Bool-cases (unfit update r)) [
      | inl bad ↦
          let same = ok-injective (rw bad at k) in
          inl (
            ap (λ (x : Bool × Replica). x.0) (sym same),
            ap (λ (x : Bool × Replica). x.1) (sym same),
            bad,
          )
      | inr good ↦
          let (yes_done, stored) =
            store_inv max_image_bytes update r r2 done (rw (good, none_left) at k) in
          inr (yes_done, fit update r good, stored)
    ]

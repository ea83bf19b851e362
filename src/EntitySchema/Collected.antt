-- ===== src/EntitySchema/Collected.antt =====
-- What the loops of `snapshot` and `changes` of src/entity_schema.cpp collect, key by key.
use fsnet.Base.{
  ap, ◌∙◌, sym, ltb, ℕ, Bool, true, false, ◌&&◌, Bytes, [], ◌∷◌, Option, none, some, if◌then◌else◌,
  ◌≡◌, refl, inl, inr,
}
use fsnet.Base.Errors.{ok, >>=-eq-ok, ok-injective}
use fsnet.Base.Maps.{Map, find, find-insert_or_assign, IsSorted, Above, find_below}
use fsnet.Base.Tests.{Bool-cases, Option-cases}
use fsnet.Base.Texts.{text_eq, text_eq→eq, text_eq_refl}
use fsnet.Attribute.{AttributeValue, AttributeStruct}
use fsnet.EntitySchema.{AttributeDefinition}
use fsnet.EntitySchema.Carrier.{at, add, or_out_of_range}
use fsnet.EntitySchema.Views.{collect_changes, collect}
use mathlib.Core.Path.{subst}

-- The value of an attribute that is wanted.
abbrev pub chosen :
    (AttributeDefinition → Bool)
    → Option AttributeDefinition
    → Option AttributeValue
    → Option AttributeValue
chosen wants none value = none
chosen wants (some d) value = if wants d then value else none

abbrev pub or_found {ℓ} : {A : Type ℓ} → Option A → Option A → Option A
or_found none other = other
or_found (some a) other = some a

module _ {ℓ} {A : Type ℓ} where
  pub or_found_none : (o : Option A) → or_found o none ≡ o
  or_found_none none = refl
  or_found_none (some a) = refl

  pub or_found_assoc : (o p q : Option A) → or_found (or_found o p) q ≡ or_found o (or_found p q)
  or_found_assoc none p q = refl
  or_found_assoc (some a) p q = refl

  or_out_of_range_inv : (o : Option A) (a : A) → or_out_of_range o ≡ ok a → o ≡ some a
  or_out_of_range_inv none a e = cc
  or_out_of_range_inv (some b) a e = cc

  pub at-find : (name : Bytes) (m : Map A) (a : A) → at name m ≡ ok a → find name m ≡ some a
  unfolding at
  at-find name m a h = or_out_of_range_inv (find name m) a h

  pub find-add :
      (k name : Bytes) (a : A) (m : Map A)
      → find k (add name a m) ≡ or_found (find k m) (if text_eq name k then some a else none)
  unfolding add
  find-add k name a m = elim (Bool-cases (text_eq name k)) [
    | inl e ↦
        let same : name ≡ k = text_eq→eq name k e in
        elim (Option-cases (find name m)) [
          | inl n ↦ rw (n, find-insert_or_assign k name a m, e, sym same, n) refl
          | inr (b, n) ↦ rw (n, sym same, n) refl
        ]
    | inr e ↦
        rw (e, or_found_none (find k m))
          (elim (Option-cases (find name m)) [
            | inl n ↦ rw (n, find-insert_or_assign k name a m, e) refl
            | inr (b, n) ↦ rw n refl
          ])
  ]

pub find-add_other {ℓ} :
    {A : Type ℓ} (k name : Bytes) (a : A) (m : Map A)
    → text_eq name k ≡ false
    → find k (add name a m) ≡ find k m
find-add_other k name a m e =
    find-add k name a m
    ∙ ap (λ b. or_found (find k m) (if b then some a else none)) e
    ∙ or_found_none (find k m)

-- What is found in the result of a loop over the attributes.
pub record Collected (wants : Bytes → AttributeDefinition → Bool) (values : AttributeStruct)
    (attributes : Map AttributeDefinition) (out result : AttributeStruct) : Type 0 where
  pub at_key :
      (k : Bytes)
      → find k result ≡ or_found (find k out) (chosen (wants k) (find k attributes) (find k values))

module _ (wants : Bytes → AttributeDefinition → Bool) (values : AttributeStruct) (name : Bytes)
    (d : AttributeDefinition) (attributes : Map AttributeDefinition) (out result : AttributeStruct)
    (above : Above name attributes) where
  -- The result at one key, from that at `name` and what the rest of the loop gives at the others.
  by_key :
      find name result ≡ or_found (find name out) (chosen (wants name) (some d) (find name values))
      → ((k : Bytes)
          → text_eq name k ≡ false
          → find k result
            ≡ or_found (find k out) (chosen (wants k) (find k attributes) (find k values)))
      → Collected wants values ((name, d) ∷ attributes) out result
  unfolding find
  by_key first others = record {
    at_key = λ k. elim (Bool-cases (text_eq name k)) [
      | inl e ↦
          subst
            (λ x.
              find x result
              ≡ or_found (find x out) (
                  chosen (wants x) (if text_eq name x then some d else find x attributes)
                    (find x values)))
            (text_eq→eq name k e) (rw (text_eq_refl name) first)
      | inr e ↦ rw e (others k e)
    ];
  }

  pub keep :
      wants name d ≡ false
      → Collected wants values attributes out result
      → Collected wants values ((name, d) ∷ attributes) out result
  keep unwanted c =
      let none_below : find name result ≡ or_found (find name out) none =
        c.at_key name
        ∙ ap
            (λ (o : Option AttributeDefinition).
              or_found (find name out) (chosen (wants name) o (find name values)))
            (find_below name attributes above) in
      by_key (rw unwanted none_below) (λ k e. c.at_key k)

  pub take :
      (value : AttributeValue)
      → wants name d ≡ true
      → find name values ≡ some value
      → Collected wants values attributes (add name value out) result
      → Collected wants values ((name, d) ∷ attributes) out result
  take value wanted stored c =
      let none_below : find name result ≡ or_found (find name (add name value out)) none =
        c.at_key name
        ∙ ap
            (λ (o : Option AttributeDefinition).
              or_found (find name (add name value out)) (chosen (wants name) o (find name values)))
            (find_below name attributes above) in
      let added : find name (add name value out) ≡ or_found (find name out) (some value) =
        find-add name name value out
        ∙ ap (λ b. or_found (find name out) (if b then some value else none)) (text_eq_refl name) in
      by_key
        (rw (wanted, stored) (none_below ∙ or_found_none (find name (add name value out)) ∙ added))
        (λ k e.
          c.at_key k
          ∙ ap
              (λ (o : Option AttributeValue).
                or_found o (chosen (wants k) (find k attributes) (find k values)))
              (find-add_other k name value out e))

pub IsSorted-tail {ℓ} :
    {A : Type ℓ} (name : Bytes) (a : A) (m : Map A) → IsSorted ((name, a) ∷ m) → IsSorted m
IsSorted-tail name a [] h = tt
IsSorted-tail name a ((j, b) ∷ m) h = h.1

pub collect-Collected :
    (wanted : AttributeDefinition → Bool) (values : AttributeStruct)
    (attributes : Map AttributeDefinition) (out result : AttributeStruct)
    → IsSorted attributes
    → collect wanted values attributes out ≡ ok result
    → Collected (λ k d. wanted d) values attributes out result
unfolding collect find
collect-Collected wanted values [] out result sorted h = record {
  at_key = λ k. rw (ok-injective h) (sym (or_found_none (find k result)));
}
collect-Collected wanted values ((name, d) ∷ attributes) out result sorted h =
    elim (Bool-cases (wanted d)) [
      | inl e ↦
          let (value, stored, more) = >>=-eq-ok (at name values) _ (rw (e, collect) at h) in
          take (λ k d. wanted d) values name d attributes out result sorted value e
            (at-find name values value stored)
            (collect-Collected wanted values attributes (add name value out) result
              (IsSorted-tail name d attributes sorted) more)
      | inr e ↦
          keep (λ k d. wanted d) values name d attributes out result sorted e
            (collect-Collected wanted values attributes out result
              (IsSorted-tail name d attributes sorted) (rw (e, collect) at h))
    ]

-- `modified_.at(name) > since`
abbrev pub newer : ℕ → Option ℕ → Bool
newer since none = false
newer since (some version) = ltb since version

pub collect_changes-Collected :
    (since : ℕ) (modified : Map ℕ) (wanted : AttributeDefinition → Bool) (values : AttributeStruct)
    (attributes : Map AttributeDefinition) (out result : AttributeStruct)
    → IsSorted attributes
    → collect_changes since modified wanted values attributes out ≡ ok result
    → Collected (λ k d. wanted d && newer since (find k modified)) values attributes out result
unfolding collect_changes find
collect_changes-Collected since modified wanted values [] out result sorted h = record {
  at_key = λ k. rw (ok-injective h) (sym (or_found_none (find k result)));
}
collect_changes-Collected since modified wanted values ((name, d) ∷ attributes) out result sorted
      h =
    let wants : Bytes → AttributeDefinition → Bool =
      λ k c. wanted c && newer since (find k modified) in
    let tail = IsSorted-tail name d attributes sorted in
    elim (Bool-cases (wanted d)) [
      | inr e ↦ keep wants values name d attributes out result sorted (rw e refl) (
          collect_changes-Collected since modified wanted values attributes out result tail
            (rw (e, collect_changes) at h))
      | inl e ↦
          let (version, found, more) =
            >>=-eq-ok (at name modified) _ (rw (e, collect_changes) at h) in
          let there = at-find name modified version found in
          elim (Bool-cases (ltb since version)) [
            | inr old ↦
                keep wants values name d attributes out result sorted (rw (e, there, old) refl) (
                  collect_changes-Collected since modified wanted values attributes out result tail
                    (rw old at more))
            | inl new ↦
                let (value, stored, last) = >>=-eq-ok (at name values) _ (rw new at more) in
                take wants values name d attributes out result sorted value
                  (rw (e, there, new) refl) (at-find name values value stored)
                  (collect_changes-Collected since modified wanted values attributes
                    (add name value out) result tail last)
          ]
    ]

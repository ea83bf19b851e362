-- ===== src/EntitySchema/Prepared.antt =====
-- What `publish` of src/entity_schema.cpp prepares and commits, key by key.
use fsnet.Base.{
  ℕ, Bool, true, false, not, Bytes, [], ◌∷◌, Option, none, some, if◌then◌else◌, ◌≡◌, refl, sym, ap,
  ◌∙◌, inl, inr,
}
use fsnet.Base.Errors.{ok, >>=-eq-ok, ok-injective, ok-subst}
use fsnet.Base.Maps.{Map, find, insert_or_assign, find-insert_or_assign, IsSorted, find_below}
use fsnet.Base.Tests.{Bool-cases}
use fsnet.Base.Texts.{text_eq, text_eq→eq, text_eq_refl}
use fsnet.Attribute.{AttributeValue, AttributeStruct}
use fsnet.Attribute.Equality.{value_eq}
use fsnet.EntitySchema.Carrier.{at, add, prepare, commit}
use fsnet.EntitySchema.Collected.{
  or_found, or_found_none, at-find, find-add, find-add_other, IsSorted-tail,
}
use fsnet.EntitySchema.Shown.{add-IsSorted}
use mathlib.Core.Path.{subst}

-- The new value, where there is one that differs from the old.
abbrev pub differing : Option AttributeValue → Option AttributeValue → Option AttributeValue
differing none old = none
differing (some value) none = none
differing (some value) (some old) = if not (value_eq old value) then some value else none

-- what one value adds
abbrev next_prepared : Bytes → AttributeValue → AttributeValue → AttributeStruct → AttributeStruct
next_prepared name old value prepared =
    if not (value_eq old value) then add name value prepared else prepared

find-next_here :
    (name : Bytes) (old value : AttributeValue) (prepared : AttributeStruct)
    → find name (next_prepared name old value prepared)
      ≡ or_found (find name prepared) (differing (some value) (some old))
find-next_here name old value prepared = elim (Bool-cases (not (value_eq old value))) [
  | inl e ↦ rw e (
      find-add name name value prepared
      ∙ ap (λ b. or_found (find name prepared) (if b then some value else none))
          (text_eq_refl name))
  | inr e ↦ rw e (sym (or_found_none (find name prepared)))
]

find-next_other :
    (k name : Bytes) (old value : AttributeValue) (prepared : AttributeStruct)
    → text_eq name k ≡ false
    → find k (next_prepared name old value prepared) ≡ find k prepared
find-next_other k name old value prepared e = elim (Bool-cases (not (value_eq old value))) [
  | inl d ↦ rw d (find-add_other k name value prepared e)
  | inr d ↦ rw d refl
]

pub find-prepare :
    (k : Bytes) (current values prepared out : AttributeStruct)
    → IsSorted values
    → prepare current values prepared ≡ ok out
    → find k out ≡ or_found (find k prepared) (differing (find k values) (find k current))
unfolding prepare find
find-prepare k current [] prepared out sorted h =
    rw (ok-injective h) (sym (or_found_none (find k out)))
find-prepare k current ((name, value) ∷ values) prepared out sorted h =
    let (old, found, more) = >>=-eq-ok (at name current) _ h in
    let ih =
      find-prepare k current values (next_prepared name old value prepared) out
        (IsSorted-tail name value values sorted) more in
    elim (Bool-cases (text_eq name k)) [
      | inl e ↦
          let same = text_eq→eq name k e in
          let below : find k values ≡ none =
            subst (λ x. find x values ≡ none) same (find_below name values sorted) in
          let stored : find k current ≡ some old =
            subst (λ x. find x current ≡ some old) same (at-find name current old found) in
          let first : find k (next_prepared name old value prepared)
              ≡ or_found (find k prepared) (differing (some value) (some old)) =
            subst
              (λ x.
                find x (next_prepared name old value prepared)
                ≡ or_found (find x prepared) (differing (some value) (some old)))
              same (find-next_here name old value prepared) in
          ih
          ∙ ap
              (λ o.
                or_found (find k (next_prepared name old value prepared))
                  (differing o (find k current)))
              below
          ∙ or_found_none (find k (next_prepared name old value prepared))
          ∙ first
          ∙ ap (λ o. or_found (find k prepared) (differing (some value) o)) (sym stored)
          ∙ ap
              (λ b.
                or_found (find k prepared)
                  (differing (if b then some value else find k values) (find k current)))
              (sym e)
      | inr e ↦
          ih
          ∙ ap (λ o. or_found o (differing (find k values) (find k current)))
              (find-next_other k name old value prepared e)
          ∙ ap
              (λ b.
                or_found (find k prepared)
                  (differing (if b then some value else find k values) (find k current)))
              (sym e)
    ]

pub prepare-IsSorted :
    (current values prepared out : AttributeStruct)
    → IsSorted prepared
    → prepare current values prepared ≡ ok out
    → IsSorted out
unfolding prepare
prepare-IsSorted current [] prepared out sorted h = ok-subst (λ x. IsSorted x) h sorted
prepare-IsSorted current ((name, value) ∷ values) prepared out sorted h =
    let (old, found, more) = >>=-eq-ok (at name current) _ h in
    prepare-IsSorted current values _ out (next_sorted (not (value_eq old value))) more
  where
    next_sorted : (b : Bool) → IsSorted (if b then add name value prepared else prepared)
    next_sorted true = add-IsSorted name value prepared sorted
    next_sorted false = sorted

pub find-commit :
    (k : Bytes) (version : ℕ) (prepared : AttributeStruct) (s : AttributeStruct × Map ℕ)
    → IsSorted prepared
    → find k (commit version prepared s).0 ≡ or_found (find k prepared) (find k s.0)
unfolding commit find
find-commit k version [] s sorted = refl
find-commit k version ((name, value) ∷ prepared) s sorted =
    find-commit k version prepared
      (insert_or_assign name value s.0, insert_or_assign name version s.1)
      (IsSorted-tail name value prepared sorted)
    ∙ ap (λ o. or_found (find k prepared) o) (find-insert_or_assign k name value s.0)
    ∙ elim (Bool-cases (text_eq name k)) [
      | inl e ↦
          let below : find k prepared ≡ none =
            subst (λ x. find x prepared ≡ none) (text_eq→eq name k e)
              (find_below name prepared sorted) in
          rw (e, below) refl
      | inr e ↦ rw e refl
    ]

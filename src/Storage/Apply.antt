-- ===== src/Storage/Apply.antt =====
-- What a committed transaction leaves in the store.
use fsnet.Base.{
  ◌∙◌, ℕ, ◌+◌, ◌≤◌, ◌<◌, ◌≡◌, refl, ◌⊎◌, inl, inr, Bool, true, false, [], ◌∷◌, List, Option, none,
  some, arith, if◌then◌else◌, Bytes, text_eq, Bool-cases,
}
use fsnet.Base.Maps.{
  find, IsSorted, find-insert_or_assign, find-erase, insert_or_assign-IsSorted, erase-IsSorted,
}
use fsnet.Storage.{write, Record, Mutation, Memory, apply_one, apply_all, max_version}

-- Keys are unique and in order, and each record carries a version given out before.
pub record IsStore (s : Memory) : Type 0 where
  pub sorted : IsSorted s.records
  pub versions :
      (k : Bytes) (r : Record)
      → find k s.records ≡ some r
      → (0 < r.version) × (r.version ≤ s.revision)
  pub in_range : s.revision < max_version

-- What a mutation makes of the record at its key: it keeps it, or writes it anew, or removes it.
abbrev pub effect : Bool → Option Bytes → ℕ → Option Record → Option Record
effect true value revision old = old
effect false (some text) revision old = some (record { value = text; version = revision + 1 })
effect false none revision old = none

find-write :
    (key : Bytes) (check_only : Bool) (value : Option Bytes) (s : Memory) (k : Bytes)
    → IsSorted s.records
    → find k (write key check_only value s).records ≡ (
        if text_eq key k
        then effect check_only value s.revision (find k s.records)
        else find k s.records)
unfolding write
find-write key true value s k sorted = ground arith
find-write key false (some text) s k sorted = find-insert_or_assign k key _ s.records
find-write key false none s k sorted = find-erase k key s.records sorted

-- The effect of one mutation, at every key.
pub find-apply_one :
    (m : Mutation) (s : Memory) (k : Bytes)
    → IsSorted s.records
    → find k (apply_one m s).records ≡ (
        if text_eq m.key k
        then effect m.check_only m.value s.revision (find k s.records)
        else find k s.records)
unfolding apply_one
find-apply_one m s k sorted = find-write m.key m.check_only m.value s k sorted

write-IsSorted :
    (key : Bytes) (check_only : Bool) (value : Option Bytes) (s : Memory)
    → IsSorted s.records
    → IsSorted (write key check_only value s).records
unfolding write
write-IsSorted key true value s sorted = sorted
write-IsSorted key false (some text) s sorted = insert_or_assign-IsSorted key _ s.records sorted
write-IsSorted key false none s sorted = erase-IsSorted key s.records sorted

pub apply_one-IsSorted :
    (m : Mutation) (s : Memory) → IsSorted s.records → IsSorted (apply_one m s).records
unfolding apply_one
apply_one-IsSorted m s sorted = write-IsSorted m.key m.check_only m.value s sorted

-- A key of the new store holds its old record, none, or one with a version not given out before.
pub record Grows (s t : Memory) : Type 0 where
  pub revision : s.revision ≤ t.revision
  pub at :
      (k : Bytes)
      → (find k t.records ≡ find k s.records)
        ⊎ (find k t.records ≡ none)
        ⊎ ((r : Record) × (find k t.records ≡ some r)
            × (s.revision < r.version)
            × (r.version ≤ t.revision))

pub Grows-refl : (s : Memory) → Grows s s
Grows-refl s = record { revision = omega arith; at = λ k. inl refl }

pub Grows-trans : {s t u : Memory} → Grows s t → Grows t u → Grows s u
Grows-trans {s} {t} {u} g h = record {
  revision = omega (arith, g.revision, h.revision);
  at = λ k. elim (h.at k) [
    | inr (inl gone) ↦ inr (inl gone)
    | inr (inr (r, e, lo, hi)) ↦ inr (inr (r, e, omega (arith, g.revision), hi))
    | inl same ↦ elim (g.at k) [
      | inl old ↦ inl (same ∙ old)
      | inr (inl gone) ↦ inr (inl (same ∙ gone))
      | inr (inr (r, e, lo, hi)) ↦ inr (inr (r, same ∙ e, lo, omega (arith, h.revision)))
    ]
  ];
}

write-Grows :
    (key : Bytes) (check_only : Bool) (value : Option Bytes) (s : Memory)
    → IsSorted s.records
    → Grows s (write key check_only value s)
write-Grows key true value s sorted = unfold write in Grows-refl s
write-Grows key false (some text) s sorted = record {
  revision = unfold write in omega arith;
  at = λ k. elim (Bool-cases (text_eq key k)) [
    | inl hit ↦ inr (
        inr (
          record { value = text; version = s.revision + 1 },
          rw hit at (find-write key false (some text) s k sorted),
          omega arith,
          unfold write in omega arith,
        ))
    | inr miss ↦ inl (rw miss at (find-write key false (some text) s k sorted))
  ];
}
write-Grows key false none s sorted = record {
  revision = unfold write in omega arith;
  at = λ k. elim (Bool-cases (text_eq key k)) [
    | inl hit ↦ inr (inl (rw hit at (find-write key false none s k sorted)))
    | inr miss ↦ inl (rw miss at (find-write key false none s k sorted))
  ];
}

pub apply_all-Grows :
    (mutations : List Mutation) (s : Memory)
    → IsSorted s.records
    → IsSorted (apply_all mutations s).records × Grows s (apply_all mutations s)
unfolding apply_all
apply_all-Grows [] s sorted = (sorted, Grows-refl s)
apply_all-Grows (m ∷ mutations) s sorted =
    let (done, grows) = apply_all-Grows mutations (apply_one m s) (apply_one-IsSorted m s sorted) in
    (done, Grows-trans (unfold apply_one in write-Grows m.key m.check_only m.value s sorted) grows)

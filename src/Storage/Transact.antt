-- ===== src/Storage/Transact.antt =====
-- `Memory::transact` as a whole: when it commits, and what a commit or a refusal leaves.
use fsnet.Base.{
  ◌+◌, ◌-◌, ◌%◌, ◌^◌, ◌≤◌, ◌<◌, ◌≡◌, sym, ◌∙◌, inl, inr, Bool, true, false, [], ◌∷◌, List, Option,
  none, some, arith, if◌then◌else◌, length, Bytes, Bool-cases, ok, >>=-eq-ok, leb,
}
use fsnet.Base.Maps.{find}
use fsnet.Storage.{
  Record, Mutation, Memory, write, apply_one, apply_all, max_version, validate, all_current,
  transact,
}
use mathlib.Core.Path.{subst}
use fsnet.Storage.Apply.{IsStore, Grows, Grows-refl, apply_all-Grows}

-- How `transact` goes, by its tests.
pub data Transacted (mutations : List Mutation) (s : Memory) : Bool → Memory → Type 0 where
  refused : all_current s.records mutations ≡ false → Transacted mutations s false s
  committed :
      all_current s.records mutations ≡ true
      → leb ((max_version + 2 ^ 64 - s.revision) % 2 ^ 64) (length mutations) ≡ false
      → Transacted mutations s true (apply_all mutations s)

pub transact_inv :
    (mutations : List Mutation) (s t : Memory) (r : Bool)
    → transact mutations s ≡ ok (r, t)
    → (validate mutations ≡ ok tt) × Transacted mutations s r t
unfolding transact
transact_inv mutations s t r h =
    let (u, valid, rest) = >>=-eq-ok (validate mutations) _ h in
    (
      valid,
      elim (Bool-cases (all_current s.records mutations)) [
        | inl current ↦
            elim (Bool-cases
              (leb ((max_version + 2 ^ 64 - s.revision) % 2 ^ 64) (length mutations))) [
                | inl full ↦ cc (rw (current, full) at rest)
                | inr room ↦
                    at (true, apply_all mutations s) (cc (rw (current, room) at rest))
                      (committed current room)
              ]
        | inr stale ↦ at (false, s) (cc (rw stale at rest)) (refused stale)
      ],
    )
  where
    at :
        (p : Bool × Memory)
        → p ≡ (r, t)
        → Transacted mutations s p.0 p.1
        → Transacted mutations s r t
    at p e = subst (λ q. Transacted mutations s q.0 q.1) e

write_revision :
    (key : Bytes) (check_only : Bool) (value : Option Bytes) (s : Memory)
    → (write key check_only value s).revision ≤ s.revision + 1
unfolding write
write_revision key true value s = omega arith
write_revision key false (some text) s = omega arith
write_revision key false none s = omega arith

apply_all_revision :
    (mutations : List Mutation) (s : Memory)
    → (apply_all mutations s).revision ≤ s.revision + length mutations
unfolding apply_all apply_one
apply_all_revision [] s = omega arith
apply_all_revision (m ∷ mutations) s = omega (
  arith,
  apply_all_revision mutations (write m.key m.check_only m.value s),
  write_revision m.key m.check_only m.value s,
)

-- A record's version was given out, and was given out after the old revision if it is new.
grown_versions :
    (s t : Memory)
    → IsStore s
    → Grows s t
    → (k : Bytes) (r : Record) → find k t.records ≡ some r
    → (0 < r.version) × (r.version ≤ t.revision)
grown_versions s t store grows k r e = elim (grows.at k) [
  | inl same ↦
      let (pos, le) = store.versions k r (sym same ∙ e) in (pos, omega (arith, grows.revision))
  | inr (inl gone) ↦ cc
  | inr (inr (q, f, lo, hi)) ↦ let same : q ≡ r = cc in rw (← same) (omega arith, hi)
]

-- A call of `transact` that returns leaves a proper store, where a key holds its old record, none,
-- or one with a version above all that were given out before.
pub transact-IsStore :
    (mutations : List Mutation) (s t : Memory) (r : Bool)
    → IsStore s
    → transact mutations s ≡ ok (r, t)
    → IsStore t × Grows s t
transact-IsStore mutations s t r store h = kept (transact_inv mutations s t r h).1
  where
    kept : {r : Bool} {t : Memory} → Transacted mutations s r t → IsStore t × Grows s t
    kept (refused stale) = (store, Grows-refl s)
    kept (committed current room) =
        let (sorted, grows) = apply_all-Grows mutations s store.sorted in
        (
          record {
            sorted = sorted;
            versions = grown_versions s (apply_all mutations s) store grows;
            in_range = ground (arith, apply_all_revision mutations s, store.in_range);
          },
          grows,
        )

-- The outcome of a valid transaction on a proper store whose versions are not exhausted, by the test
-- of the code.
pub transact_tests :
    (mutations : List Mutation) (s : Memory)
    → IsStore s
    → validate mutations ≡ ok tt
    → s.revision + length mutations < max_version
    → transact mutations s
      ≡ ok (if all_current s.records mutations then (true, apply_all mutations s) else (false, s))
unfolding transact
transact_tests mutations s store valid room = elim (Bool-cases (all_current s.records mutations)) [
  | inl current ↦ rw (valid, current, no_overflow)
  | inr stale ↦ rw (valid, stale)
]
  where
    no_overflow : leb ((max_version + 2 ^ 64 - s.revision) % 2 ^ 64) (length mutations) ≡ false
    no_overflow = ground arith

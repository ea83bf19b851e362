-- ===== src/Storage/Decides.antt =====
-- When `Memory::transact` of src/database.cpp commits, and what each mutation then has done.
use fsnet.Base.{
  ℕ, ◌+◌, ◌<◌, ◌≡◌, refl, ap, sym, ◌∙◌, ◌⊎◌, inl, inr, Bool, true, false, not, ◌&&◌, ◌||◌, [], ◌∷◌,
  List, Option, none, some, arith, length, Bytes, Bool-cases, ok, All, ◌==◌, is_some,
}
use fsnet.Base.Errors.{throw_if-eq-ok}
use fsnet.Base.Maps.{find}
use fsnet.Base.Tests.{ltb, and_true}
use fsnet.Storage.{
  Mutation, Memory, apply_all, max_version, validate, validate_loop, all_current, is_current,
  transact, version_of,
}
use fsnet.Storage.Apply.{IsStore}
use fsnet.Storage.Committed.{apply_all-Committed, Committed}
use fsnet.Storage.Transact.{transact_tests}

-- A mutation fits the store: the record at its key has the expected version, 0 standing for no record,
-- and a record that it removes is there.
abbrev pub Matches : Memory → Mutation → Type 0
Matches s m =
    (version_of (find m.key s.records) ≡ m.expected)
    × (m.check_only ≡ false → m.value ≡ none → 0 < m.expected)

is_current-Matches : (s : Memory) (m : Mutation) → is_current s.records m ≡ true → Matches s m
unfolding is_current
is_current-Matches s m h = (
  ground (arith, h),
  λ writes gone.
      (let absent : is_some m.value ≡ false = ap is_some gone in ground (arith, h, writes, absent)),
)

current_by :
    (check_only : Bool) (value : Option Bytes) (version expected : ℕ)
    → version ≡ expected
    → (check_only ≡ false → value ≡ none → 0 < expected)
    → not (not (version == expected) || (not check_only && not (is_some value) && version == 0))
      ≡ true
current_by true value version expected same there = ground arith
current_by false (some text) version expected same there = ground arith
current_by false none version expected same there =
    let positive = there refl refl in ground (arith, same, positive)

Matches-is_current : (s : Memory) (m : Mutation) → Matches s m → is_current s.records m ≡ true
unfolding is_current
Matches-is_current s m (same, there) = current_by m.check_only m.value _ m.expected same there

all_current-Matches :
    (s : Memory) (mutations : List Mutation)
    → all_current s.records mutations ≡ true
    → All (Matches s) mutations
unfolding all_current
all_current-Matches s [] h = tt
all_current-Matches s (m ∷ mutations) h =
    let (first, rest) = and_true (is_current s.records m) (all_current s.records mutations) h in
    (is_current-Matches s m first, all_current-Matches s mutations rest)

Matches-all_current :
    (s : Memory) (mutations : List Mutation)
    → All (Matches s) mutations
    → all_current s.records mutations ≡ true
unfolding all_current
Matches-all_current s [] all = refl
Matches-all_current s (m ∷ mutations) (first, rest) =
    rw (Matches-is_current s m first, Matches-all_current s mutations rest) refl

validated :
    (mutations : List Mutation) → validate mutations ≡ ok tt → validate_loop mutations [] ≡ ok tt
unfolding validate
validated mutations h = (throw_if-eq-ok (ltb 1024 (length mutations)) _ _ h).1

-- A valid transaction on a proper store whose versions are not exhausted returns. It commits exactly if
-- each mutation fits the store: the record at its key has the expected version, 0 for none, and what it
-- removes is there. Then each mutation has been done, with new versions for the records written, and no
-- other key has been touched; and if one does not fit, nothing is changed.
pub transact_decides :
    (mutations : List Mutation) (s : Memory)
    → IsStore s
    → validate mutations ≡ ok tt
    → s.revision + length mutations < max_version
    → (All (Matches s) mutations
        × ((t : Memory) × (transact mutations s ≡ ok (true, t)) × Committed mutations s t))
      ⊎ (¬ All (Matches s) mutations × (transact mutations s ≡ ok (false, s)))
transact_decides mutations s store valid room =
    elim (Bool-cases (all_current s.records mutations)) [
      | inl current ↦ inl (
        all_current-Matches s mutations current,
        (
          apply_all mutations s,
          rw current at (transact_tests mutations s store valid room),
          apply_all-Committed mutations [] s store.sorted (validated mutations valid),
        ),
      )
      | inr stale ↦ inr (
        λ all. cc (sym stale ∙ Matches-all_current s mutations all),
        rw stale at (transact_tests mutations s store valid room),
      )
    ]

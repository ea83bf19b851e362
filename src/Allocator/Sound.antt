-- ===== src/Allocator/Sound.antt =====
-- What holds of allocators on one storage at any time.
use fsnet.Base.{inr, inl, ◌==◌, ◌^◌, ℕ, ◌≤◌, ◌<◌, ◌≡◌, List, ◌∷◌, [], Option, some, ok, All, arith}
use fsnet.Base.Tests.{Bool-cases}
use fsnet.Allocator.{Allocator, sequence_key, high_water}
use fsnet.Allocator.Blocks.{Holds, Seen}
use fsnet.Allocator.World.{World, IsStart, set}
use fsnet.Storage.{Record}
use fsnet.Storage.Contract.{StorageContract}

-- All elements differ.
abbrev pub AllDiffer : List ℕ → Type 0
AllDiffer [] = Unit
AllDiffer (x ∷ xs) = All (λ y. ¬ (y ≡ x)) xs × AllDiffer xs

pub set-held {κ} :
    (Q : ℕ → Type κ) (i : ℕ) (b : Allocator) (f : ℕ → Allocator)
    → ((x : ℕ) → Holds b x → Q x)
    → ((j x : ℕ) → ¬ (i ≡ j) → Holds (f j) x → Q x)
    → (j x : ℕ) → Holds (set i b f j) x
    → Q x
set-held Q i b f new old j x h = elim (Bool-cases (i == j)) [
  | inl same ↦ new x (rw same at h)
  | inr other ↦ old j x (λ e. ground arith) (rw other at h)
]

pub set-apart :
    (i : ℕ) (b : Allocator) (f : ℕ → Allocator)
    → ((j x : ℕ) → Holds b x → Holds (f j) x → i ≡ j)
    → ((j k x : ℕ) → Holds (f j) x → Holds (f k) x → j ≡ k)
    → (j k x : ℕ) → Holds (set i b f j) x
    → Holds (set i b f k) x
    → j ≡ k
set-apart i b f new old j k x h g = elim (Bool-cases (i == j)) [
  | inl same ↦ elim (Bool-cases (i == k)) [
    | inl also ↦ ground arith
    | inr other ↦ ground (arith, new k x (rw same at h) (rw other at g))
  ]
  | inr apart ↦ elim (Bool-cases (i == k)) [
    | inl also ↦ ground (arith, new j x (rw also at g) (rw apart at h))
    | inr other ↦ old j k x (rw apart at h) (rw other at g)
  ]
]

pub set-previous {κ} :
    (Q : Option Record → Type κ) (i : ℕ) (a : Option (Option Record))
    (f : ℕ → Option (Option Record))
    → ((p : Option Record) → a ≡ some p → Q p)
    → ((j : ℕ) (p : Option Record) → f j ≡ some p → Q p)
    → (j : ℕ) (p : Option Record) → set i a f j ≡ some p
    → Q p
set-previous Q i a f new old j p h = elim (Bool-cases (i == j)) [
  | inl same ↦ new p (rw same at h)
  | inr other ↦ old j p (rw other at h)
]

module _ (storage : StorageContract) where
  open storage use {State, get, Proper, Later, later_refl, later_trans, later_proper}

  -- `x` is not above the mark of the storage
  abbrev pub Marked : State → ℕ → Type 0
  Marked s x = (high : ℕ) → high_water (get sequence_key s) ≡ ok high → x ≤ high

  pub record IsSound (w : World storage) : Type 0 where
    pub proper : Proper w.store
    pub word : (high : ℕ) → high_water (get sequence_key w.store) ≡ ok high → high < 2 ^ 64
    pub seen :
        (i : ℕ) (p : Option Record)
        → w.previous i ≡ some p
        → Seen storage w.store p × ((high : ℕ) → high_water p ≡ ok high → high < 2 ^ 64)
    pub held :
        (i x : ℕ) → Holds (w.allocators i) x → Marked w.store x × All (λ y. ¬ (y ≡ x)) w.issued
    pub apart : (i j x : ℕ) → Holds (w.allocators i) x → Holds (w.allocators j) x → i ≡ j
    pub marked : All (λ x. Marked w.store x) w.issued
    pub nonzero : All (λ x. 0 < x) w.issued
    pub differ : AllDiffer w.issued

  pub start-IsSound : (w : World storage) → IsStart storage w → IsSound w
  start-IsSound w s = record {
    proper = s.proper;
    word = s.word;
    seen = λ i p e. cc (s.idle i);
    held = λ i x h. absurd (omega (arith, h, s.empty i));
    apart = λ i j x h k. absurd (omega (arith, h, s.empty i));
    marked = rw s.none_issued tt;
    nonzero = rw s.none_issued tt;
    differ = rw s.none_issued tt;
  }

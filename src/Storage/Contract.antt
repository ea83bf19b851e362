-- ===== src/Storage/Contract.antt =====
-- What the components ask of a storage, and that the in-memory backend grants it.
use fsnet.Base.{
  ◌⊎◌, List, ◌*◌, ℕ, ◌+◌, ◌≤◌, ◌<◌, ◌≡◌, refl, ◌∙◌, sym, ap, inl, inr, Bool, true, false, [], ◌∷◌,
  Option, none, some, arith, length, Bytes, Outcome, ok, Option-cases, text_eq_refl,
}
use fsnet.Base.Maps.{find-insert_or_assign}
use fsnet.Base.Tests.{==_refl}
use fsnet.Base.Texts.{text_eq-false}
use fsnet.Storage.{Mutation, Record, Memory, version_of, max_version, compare_exchange, get}
use fsnet.Storage.Apply.{IsStore}
use fsnet.Storage.History.{no_aba, start, IsWrite, History-IsStore, then_transact, History}
use fsnet.Storage.Swap.{compare_exchange_decides, swapped, version_le, compare_exchange-true}
use fsnet.Storage.Transact.{transact_inv, refused, Transacted}

-- The operations of `Storage` that work on one record, and what may be relied on between them.
pub record StorageContract : Type 1 where
  pub State : Type 0
  pub get : Bytes → State → Option Record
  pub compare_exchange : Bytes → ℕ → Bytes → State → Outcome (Bool × State)
  -- states that the operations lead to, those that can take one more write, and what comes later
  pub Proper : State → Type 0
  pub Room : State → Type 0
  pub Later : State → State → Type 0
  pub later_refl : (s : State) → Later s s
  pub later_trans : {s t u : State} → Later s t → Later t u → Later s u
  pub later_proper : {s t : State} → Proper s → Later s t → Proper t
  pub same_version :
      {s t : State} (key : Bytes)
      → Proper s
      → Later s t
      → version_of (get key s) ≡ version_of (get key t)
      → get key s ≡ get key t
  pub exchange_later :
      (key value : Bytes) (expected : ℕ) {s t : State} {r : Bool}
      → compare_exchange key expected value s ≡ ok (r, t)
      → Later s t
  pub exchanged :
      (key value : Bytes) (expected : ℕ) {s t : State}
      → Proper s
      → compare_exchange key expected value s ≡ ok (true, t)
      → (version_of (get key s) ≡ expected)
        × ((version : ℕ) × (get key t ≡ some (record { value = value; version = version })))
  pub others :
      (key value k : Bytes) (expected : ℕ) {s t : State} (r : Bool)
      → Proper s
      → compare_exchange key expected value s ≡ ok (r, t)
      → ¬ (key ≡ k)
      → get k t ≡ get k s
  pub refuses :
      (key value : Bytes) (expected : ℕ) {s t : State}
      → Proper s
      → compare_exchange key expected value s ≡ ok (false, t)
      → t ≡ s
  pub exchanges :
      (key value : Bytes) (s : State)
      → Proper s
      → Room s
      → 0 < length key
      → length key ≤ 4096
      → length value ≤ 16 * 1024 * 1024
      → (t : State) × (compare_exchange key (version_of (get key s)) value s ≡ ok (true, t))

pub History-trans : {s t u : Memory} → History s t → History t u → History s u
History-trans a start = a
History-trans a (then_transact mutations b h) = then_transact mutations (History-trans a b) h

pub memory_same_version :
    {s t : Memory} (key : Bytes)
    → IsStore s
    → History s t
    → version_of (get key s) ≡ version_of (get key t)
    → get key s ≡ get key t
unfolding get
memory_same_version {s} {t} key store history same =
    by (Option-cases (get key s)) (Option-cases (get key t))
  where
    later_store : IsStore t
    later_store = (History-IsStore store history).0

    by :
        (get key s ≡ none) ⊎ ((r : Record) × (get key s ≡ some r))
        → (get key t ≡ none) ⊎ ((r : Record) × (get key t ≡ some r))
        → get key s ≡ get key t
    by (inl absent) (inl gone) = cc
    by (inl absent) (inr (q, new)) =
        absurd
          (omega (arith, later_store.versions key q new, ap version_of absent, ap version_of new))
    by (inr (r, old)) (inl gone) =
        absurd (omega (arith, store.versions key r old, ap version_of gone, ap version_of old))
    by (inr (r, old)) (inr (q, new)) =
        old
        ∙ ap some (
            no_aba s t key r q store history old new
              (sym (ap version_of old) ∙ same ∙ ap version_of new))
        ∙ sym new

pub memory_exchanged :
    (key value : Bytes) (expected : ℕ) {s t : Memory}
    → IsStore s
    → compare_exchange key expected value s ≡ ok (true, t)
    → (version_of (get key s) ≡ expected)
      × ((version : ℕ) × (get key t ≡ some (record { value = value; version = version })))
unfolding get
memory_exchanged key value expected {s} {t} store h =
    let (was, moved) = compare_exchange-true key value expected s t h in
    (
      was,
      (
        s.revision + 1,
        rw (moved, find-insert_or_assign key key _ s.records, text_eq_refl key) refl,
      ),
    )

pub memory_refuses :
    (key value : Bytes) (expected : ℕ) {s t : Memory}
    → IsStore s
    → compare_exchange key expected value s ≡ ok (false, t)
    → t ≡ s
unfolding compare_exchange
memory_refuses key value expected {s} {t} store h = by false refl (transact_inv _ s t false h).1
  where
    by :
        {u : Memory} {mutations : List Mutation} (r : Bool)
        → r ≡ false
        → Transacted mutations s r u
        → u ≡ s
    by true e w = cc
    by false e (refused stale) = refl

pub memory_others :
    (key value k : Bytes) (expected : ℕ) {s t : Memory} (r : Bool)
    → IsStore s
    → compare_exchange key expected value s ≡ ok (r, t)
    → ¬ (key ≡ k)
    → get k t ≡ get k s
unfolding get
memory_others key value k expected {s} {t} true store h other =
    let (_, moved) = compare_exchange-true key value expected s t h in
    rw
      (
        moved,
        find-insert_or_assign k key (record { value = value; version = s.revision + 1 }) s.records,
        text_eq-false key k other,
      )
      refl
memory_others key value k expected {s} {t} false store h other =
    rw (memory_refuses key value expected store h) refl

pub memory_exchange_later :
    (key value : Bytes) (expected : ℕ) {s t : Memory} {r : Bool}
    → compare_exchange key expected value s ≡ ok (r, t)
    → History s t
unfolding compare_exchange
memory_exchange_later key value expected h =
    then_transact
      (record { key = key; expected = expected; value = some value; check_only = false } ∷ []) start
      h

pub memory_exchanges :
    (key value : Bytes) (s : Memory)
    → IsStore s
    → s.revision + 1 < max_version
    → 0 < length key
    → length key ≤ 4096
    → length value ≤ 16 * 1024 * 1024
    → (t : Memory) × (compare_exchange key (version_of (get key s)) value s ≡ ok (true, t))
unfolding get
memory_exchanges key value s store room pos short small = (
  swapped key value s,
  rw (==_refl (version_of (get key s))) at
      ((compare_exchange_decides key value (version_of (get key s)) s store write room).0),
)
  where
    write : IsWrite key value (version_of (get key s))
    write = record {
      key_pos = pos;
      key_max = short;
      value_max = small;
      expected_max = omega (arith, version_le s key store);
    }

-- The in-memory backend keeps the contract.
abbrev pub memory_storage : StorageContract
memory_storage = record {
  State = Memory;
  get = get;
  compare_exchange = compare_exchange;
  Proper = IsStore;
  Room = λ s. s.revision + 1 < max_version;
  Later = λ s t. History s t;
  later_refl = λ s. start;
  later_trans = History-trans;
  later_proper = λ store history. (History-IsStore store history).0;
  same_version = memory_same_version;
  exchange_later = memory_exchange_later;
  exchanged = memory_exchanged;
  others = memory_others;
  refuses = memory_refuses;
  exchanges = memory_exchanges;
}

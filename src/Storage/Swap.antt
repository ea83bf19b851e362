-- ===== src/Storage/Swap.antt =====
-- `compare_exchange` on one record, alone and against other writers.
use fsnet.Base.{
  Option-cases, ==_iff, ℕ, ◌+◌, ◌≤◌, ◌<◌, ◌≡◌, refl, sym, ap, ◌∙◌, inl, inr, Bool, true, false, [],
  ◌∷◌, some, arith, if◌then◌else◌, Bytes, text_eq, text_eq_refl, ok, ◌==◌,
}
use fsnet.Base.Maps.{find, insert_or_assign, find-insert_or_assign}
use fsnet.Storage.{
  Mutation, Memory, write, apply_one, apply_all, all_current, version_of, max_version,
  compare_exchange, get,
}
use fsnet.Storage.Apply.{IsStore, Grows}
use fsnet.Storage.History.{History, History-IsStore, IsWrite, valid_write}
use fsnet.Storage.Transact.{transact-IsStore, Transacted, committed, transact_inv, transact_tests}

-- The store after a successful exchange.
abbrev pub swapped : Bytes → Bytes → Memory → Memory
swapped key value s = record {
  records = insert_or_assign key (record { value = value; version = s.revision + 1 }) s.records;
  revision = s.revision + 1;
}

abbrev swap : Bytes → ℕ → Bytes → Mutation
swap key expected value = record {
  key = key;
  expected = expected;
  value = some value;
  check_only = false;
}

swap_current :
    (key value : Bytes) (expected : ℕ) (s : Memory)
    → all_current s.records (swap key expected value ∷ [])
      ≡ (version_of (find key s.records) == expected)
unfolding all_current
swap_current key value expected s = ground arith

swap_applied :
    (key value : Bytes) (expected : ℕ) (s : Memory)
    → apply_all (swap key expected value ∷ []) s ≡ swapped key value s
unfolding apply_all apply_one write
swap_applied key value expected s = refl

-- `compare_exchange` with arguments in range returns, as long as versions last. It succeeds exactly
-- if the record has the expected version, 0 standing for no record. Then the key holds the value
-- under a new version and no other key changes; else nothing changes.
pub compare_exchange_decides :
    (key value : Bytes) (expected : ℕ) (s : Memory)
    → IsStore s
    → IsWrite key value expected
    → s.revision + 1 < max_version
    → (compare_exchange key expected value s
        ≡ ok (
            if version_of (get key s) == expected then (true, swapped key value s) else (false, s)))
      × ((k : Bytes)
          → get k (swapped key value s) ≡ (
              if text_eq key k
              then some (record { value = value; version = s.revision + 1 })
              else get k s))
unfolding compare_exchange get
compare_exchange_decides key value expected s store w room = (
  rw (← swap_current key value expected s, ← swap_applied key value expected s)
      (transact_tests (swap key expected value ∷ []) s store (valid_write key value expected w)
        room),
  λ k. find-insert_or_assign k key _ s.records,
)

pub compare_exchange-true :
    (key value : Bytes) (expected : ℕ) (s t : Memory)
    → compare_exchange key expected value s ≡ ok (true, t)
    → (version_of (find key s.records) ≡ expected) × (t ≡ swapped key value s)
unfolding compare_exchange
compare_exchange-true key value expected s t h =
    by true refl (transact_inv (swap key expected value ∷ []) s t true h).1
  where
    by :
        {u : Memory} (r : Bool)
        → r ≡ true
        → Transacted (swap key expected value ∷ []) s r u
        → (version_of (find key s.records) ≡ expected) × (u ≡ swapped key value s)
    by false e w = cc
    by true e (committed current room) = (
      (==_iff _ _).0 (sym (swap_current key value expected s) ∙ current),
      swap_applied key value expected s,
    )

pub version_le :
    (s : Memory) (key : Bytes) → IsStore s → version_of (find key s.records) ≤ s.revision
version_le s key store = elim (Option-cases (find key s.records)) [
  | inl absent ↦ rw absent (omega arith)
  | inr (r, e) ↦ rw e ((store.versions key r e).1)
]

swapped_version :
    (key value : Bytes) (s : Memory)
    → version_of (find key (swapped key value s).records) ≡ s.revision + 1
swapped_version key value s = rw (
  find-insert_or_assign key key (record { value = value; version = s.revision + 1 }) s.records,
  text_eq_refl key,
)

-- After the exchange the expected version is in the past for good.
later :
    (key : Bytes) (expected : ℕ) (s t u : Memory)
    → IsStore s
    → version_of (find key s.records) ≡ expected
    → t.revision ≡ s.revision + 1
    → version_of (find key t.records) ≡ s.revision + 1
    → Grows t u
    → 0 < expected
    → ¬ (version_of (find key u.records) ≡ expected)
later key expected s t u store was moved new grows pos now = elim (grows.at key) [
  | inl kept ↦ absurd (omega (arith, version_le s key store, ap version_of kept))
  | inr (inl gone) ↦ absurd (omega (arith, ap version_of gone))
  | inr (inr (r, e, lo, hi)) ↦ absurd (omega (arith, version_le s key store, ap version_of e))
]

-- Only one exchange with a given version succeeds: once one has, no later exchange that expects
-- the same version of the same key does, whatever happened to the store meanwhile. (An expected
-- version of 0 is excluded: a deleted key can be created again.)
pub exchanged_once :
    (key value other : Bytes) (expected : ℕ) (s t u v : Memory)
    → IsStore s
    → 0 < expected
    → compare_exchange key expected value s ≡ ok (true, t)
    → History t u
    → ¬ (compare_exchange key expected other u ≡ ok (true, v))
exchanged_once key value other expected s t u v store pos first history second =
    let (was, swapped_to) = compare_exchange-true key value expected s t first in
    let (now, _) = compare_exchange-true key other expected u v second in
    let (proper, _) =
      transact-IsStore (swap key expected value ∷ []) s t true store
        (unfold compare_exchange in first) in
    later key expected s t u store was (ap (λ (m : Memory). m.revision) swapped_to)
      (ap (λ (m : Memory). version_of (find key m.records)) swapped_to
        ∙ swapped_version key value s)
      (History-IsStore proper history).1 pos now

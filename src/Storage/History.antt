-- ===== src/Storage/History.antt =====
-- Histories of a store, and compare-and-swap in them.
use fsnet.Base.{
  ℕ, ◌*◌, ◌≤◌, ◌<◌, ◌≡◌, ap, inl, inr, Bool, false, [], ◌∷◌, List, some, arith, length, Bytes, ok,
}
use fsnet.Storage.{Record, Mutation, Memory, validate, max_version, transact, get}
use fsnet.Storage.Apply.{IsStore, Grows, Grows-refl, Grows-trans}
use fsnet.Storage.Transact.{transact-IsStore}

-- Any calls of `transact` that return, one after the other; `compare_exchange` and `erase` are
-- such calls.
pub data History (s : Memory) : Memory → Type 0 where
  start : History s s
  then_transact :
      {t u : Memory} {r : Bool}
      → (mutations : List Mutation) → History s t
      → transact mutations t ≡ ok (r, u)
      → History s u

pub History-IsStore : {s t : Memory} → IsStore s → History s t → IsStore t × Grows s t
History-IsStore {s} store start = (store, Grows-refl s)
History-IsStore store (then_transact {t = t} {u = u} {r = r} mutations before h) =
    let (mid, grows) = History-IsStore store before in
    let (last, more) = transact-IsStore mutations t u r mid h in (last, Grows-trans grows more)

-- Versions do not repeat: a key with the version that it had earlier still holds the record that
-- it held then, whatever was written, deleted and created anew in between.
pub no_aba :
    (s t : Memory) (k : Bytes) (r q : Record)
    → IsStore s
    → History s t
    → get k s ≡ some r
    → get k t ≡ some q
    → r.version ≡ q.version
    → r ≡ q
unfolding get
no_aba s t k r q store history old new same = elim ((History-IsStore store history).1.at k) [
  | inl kept ↦ cc
  | inr (inl gone) ↦ cc
  | inr (inr (p, e, lo, hi)) ↦
      let found : p ≡ q = cc in
      absurd (omega (arith, store.versions k r old, ap (λ (x : Record). x.version) found))
]

-- The arguments that `validate` lets through for one record.
pub record IsWrite (key value : Bytes) (expected : ℕ) : Type 0 where
  pub key_pos : 0 < length key
  pub key_max : length key ≤ 4096
  pub value_max : length value ≤ 16 * 1024 * 1024
  pub expected_max : expected < max_version

pub valid_write :
    (key value : Bytes) (expected : ℕ)
    → IsWrite key value expected
    → validate
        (record { key = key; expected = expected; value = some value; check_only = false } ∷ [])
      ≡ ok tt
unfolding validate
valid_write key value expected w = ground arith

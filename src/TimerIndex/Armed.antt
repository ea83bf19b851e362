-- ===== src/TimerIndex/Armed.antt =====
-- After arm of src/entity_timer_index.cpp the entry is in the index.
use fsnet.Base.{inr, inl, [], ◌∷◌, some, if◌then◌else◌, true, false, ◌≡◌, Bool, ℕ, zero, suc}
use fsnet.Base.Errors.{throw_if-eq-ok, ok-injective, >>=-eq-ok, ok}
use fsnet.Base.Maps.{
  find-insert_or_assign, insert_or_assign-IsSorted, find, Map, IsSorted, insert_or_assign,
}
use fsnet.Base.Tests.{Bool-cases}
use fsnet.Base.Texts.{text_lt, text_eq, Bytes}
use fsnet.EntityId.{from_text}
use fsnet.EntityRecord.{entity_record_key}
use fsnet.Storage.Contract.{StorageContract}
use fsnet.TimerIndex.{bad_entry, storage_key, identity, shard, Entry, Bucket}
use fsnet.TimerIndex.Encode.{encode_bucket}
use fsnet.TimerIndex.Fields.{AllFit, EntryFits}
use fsnet.TimerIndex.Operations.{is_stale, check_producer, read, write, arm_once, arm_loop, arm}
use fsnet.TimerIndex.Reread.{read-write}

insert_or_assign-AllFit :
    (key : Bytes) (entry : Entry) (entries : Map Entry)
    → EntryFits entry
    → AllFit entries
    → AllFit (insert_or_assign key entry entries)
unfolding insert_or_assign
insert_or_assign-AllFit key entry [] fits all = (fits, tt)
insert_or_assign-AllFit key entry ((j, other) ∷ entries) fits (good, all) =
    elim (Bool-cases (text_eq j key)) [
      | inl same ↦ rw same (fits, all)
      | inr differs ↦ elim (Bool-cases (text_lt key j)) [
        | inl before ↦ rw (differs, before) (fits, (good, all))
        | inr after ↦ rw (differs, after) (good, insert_or_assign-AllFit key entry entries fits all)
      ]
    ]

-- The bucket that `arm` writes.
abbrev with_entry : Entry → Bucket → Bucket
with_entry entry bucket = record bucket {
  entries = insert_or_assign (identity entry.type entry.id) entry bucket.entries;
}

module _ (storage : StorageContract) where
  open storage use {State, get, compare_exchange, Proper, refuses}

  arm_once-write :
      (entry : Entry) (bucket : Bucket) (s : State) {last : Bool × State}
      → read storage (shard entry.id) s ≡ ok bucket
      → arm_once storage entry s ≡ ok last
      → write storage (shard entry.id) (with_entry entry bucket) s ≡ ok last
  unfolding arm_once
  arm_once-write entry bucket s found h =
      let (id, _, h1) = >>=-eq-ok (from_text entry.id) _ h in
      let (_, _, h2) = >>=-eq-ok (check_producer entry (get (entity_record_key id) s)) _ h1 in
      let (_, h3) =
        throw_if-eq-ok (is_stale entry (find (identity entry.type entry.id) bucket.entries)) _ _
          (rw found at h2) in
      h3

  write-false :
      (index : ℕ) (bucket : Bucket) (s u : State)
      → Proper s
      → write storage index bucket s ≡ ok (false, u)
      → u ≡ s
  unfolding write
  write-false index bucket s u proper h =
      let (out, _, h1) = >>=-eq-ok (encode_bucket index bucket.entries) _ h in
      let (key, _, h2) = >>=-eq-ok (storage_key index) _ h1 in
      refuses key out bucket.version proper h2

  arm_loop-write :
      (attempts : ℕ) (entry : Entry) (bucket : Bucket) (s t : State)
      → Proper s
      → read storage (shard entry.id) s ≡ ok bucket
      → arm_loop storage attempts entry s ≡ ok t
      → write storage (shard entry.id) (with_entry entry bucket) s ≡ ok (true, t)
  unfolding arm_loop
  arm_loop-write zero entry bucket s t proper found h = cc
  arm_loop-write (suc attempts) entry bucket s t proper found h =
      let ((armed, u), e, h1) = >>=-eq-ok (arm_once storage entry s) _ h in
      by armed u (arm_loop-write attempts entry bucket s t proper found)
        (arm_once-write entry bucket s found e) h1
    where
      by :
          (armed : Bool) (u : State)
          → (arm_loop storage attempts entry s ≡ ok t
              → write storage (shard entry.id) (with_entry entry bucket) s ≡ ok (true, t))
          → write storage (shard entry.id) (with_entry entry bucket) s ≡ ok (armed, u)
          → (if armed then ok u else arm_loop storage attempts entry u) ≡ ok t
          → write storage (shard entry.id) (with_entry entry bucket) s ≡ ok (true, t)
      by true u again e same = rw (ok-injective same) at e
      by false u again e rest =
          again (rw (write-false (shard entry.id) (with_entry entry bucket) s u proper e) at rest)

  -- When arm returned, its entry is in the shard of its identity, and every other entry of the
  -- shard is as it was. The shard could be read before, the numbers of the entries are those of
  -- their types, and the entries are in key order.
  pub read-arm :
      (entry : Entry) (bucket : Bucket) (s t : State)
      → Proper s
      → EntryFits entry
      → AllFit bucket.entries
      → IsSorted bucket.entries
      → read storage (shard entry.id) s ≡ ok bucket
      → arm storage entry s ≡ ok t
      → (later : Bucket) × (read storage (shard entry.id) t ≡ ok later)
        × ((key : Bytes)
            → find key later.entries ≡ (
                if text_eq (identity entry.type entry.id) key
                then some entry
                else find key bucket.entries))
  unfolding arm
  read-arm entry bucket s t proper fits all sorted found h =
      let name = identity entry.type entry.id in
      let (_, h1) = throw_if-eq-ok (bad_entry entry) _ _ h in
      let written = arm_loop-write 8 entry bucket s t proper found h1 in
      let (_, _, _, _, now) =
        read-write storage (shard entry.id) (with_entry entry bucket) s t proper
          (insert_or_assign-AllFit name entry bucket.entries fits all)
          (insert_or_assign-IsSorted name entry bucket.entries sorted) written in
      (_, now, λ key. find-insert_or_assign key name entry bucket.entries)

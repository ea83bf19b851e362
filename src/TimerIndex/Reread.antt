-- ===== src/TimerIndex/Reread.antt =====
-- A shard of the index that was written is read back, from its text and from the storage.
use fsnet.Base.{some, ap, [], arith, refl, ltb_false→le, ◌++◌, ◌*◌, length, true, ◌≡◌, ℕ}
use fsnet.Base.Errors.{ok-subst, runtime_error, >>=-eq-ok, throw_if-eq-ok, ok}
use fsnet.Base.Maps.{IsSorted, Map}
use fsnet.Base.Tests.{ltb}
use fsnet.Base.Texts.{codes, Bytes, starts_with}
use fsnet.Storage.{version_of}
use fsnet.Storage.Contract.{StorageContract}
use fsnet.TimerIndex.{per_shard, storage_key, Entry, Bucket}
use fsnet.TimerIndex.Decode.{get_entries, decode_bucket}
use fsnet.TimerIndex.Encode.{put_entries, encode_bucket}
use fsnet.TimerIndex.Fields.{Reads-entries, AllFit}
use fsnet.TimerIndex.Operations.{bucket_of, read, write}
use fsnet.Wire.{get_number, put_number, value_of}
use fsnet.Wire.Reads.{ReadsAll-last, ReadsAll-guard, Reads-number, ReadsAll-bind}

decode-encode_bucket :
    (index : ℕ) (entries : Map Entry) (out : Bytes)
    → AllFit entries
    → IsSorted entries
    → encode_bucket index entries ≡ ok out
    → decode_bucket out ≡ ok entries
unfolding encode_bucket decode_bucket starts_with
decode-encode_bucket index entries out fit sorted h =
    let (few, h1) = throw_if-eq-ok (ltb per_shard (length entries)) _ _ h in
    let (body, e2, h2) = >>=-eq-ok (put_entries index entries) _ h1 in
    let (short, same) =
      throw_if-eq-ok
        (ltb (1024 * 1024) (length (codes "FTI2" ++ (put_number (length entries) ++ body)))) _ _
        h2 in
    let count = ltb_false→le per_shard (length entries) few in
    let r =
      ReadsAll-bind get_number _ (put_number (length entries)) body (length entries) _
        (Reads-number _ (omega (arith, count)))
        (ReadsAll-guard _ runtime_error _ _ _ few (
          ReadsAll-last (get_entries (length entries) []) _ body entries _
            (Reads-entries index entries [] body fit sorted e2) refl)) in
    ok-subst (λ text. decode_bucket text ≡ ok entries) same (rw short (ap value_of r.at))

module _ (storage : StorageContract) where
  open storage use {State, get, compare_exchange, Proper, exchanged}

  reread :
      (index : ℕ) (key out : Bytes) (version : ℕ) (entries : Map Entry) (t : State)
      → storage_key index ≡ ok key
      → get key t ≡ some (record { value = out; version = version })
      → decode_bucket out ≡ ok entries
      → read storage index t ≡ ok (record { version = version; entries = entries })
  unfolding read bucket_of
  reread index key out version entries t named now decoded = rw (named, now, decoded) refl

  -- When write succeeded, the version of the bucket was that of the stored record, and read returns
  -- the bucket's entries under some version. The numbers of the entries are those of their types,
  -- and the entries are in key order.
  pub read-write :
      (index : ℕ) (bucket : Bucket) (s t : State)
      → Proper s
      → AllFit bucket.entries
      → IsSorted bucket.entries
      → write storage index bucket s ≡ ok (true, t)
      → (key : Bytes) × (storage_key index ≡ ok key)
        × (version_of (get key s) ≡ bucket.version)
        × (version : ℕ) × (read storage index t
            ≡ ok (record { version = version; entries = bucket.entries }))
  unfolding write
  read-write index bucket s t proper fit sorted h =
      let (out, e1, h1) = >>=-eq-ok (encode_bucket index bucket.entries) _ h in
      let (key, e2, h2) = >>=-eq-ok (storage_key index) _ h1 in
      let (was, (version, now)) = exchanged key out bucket.version proper h2 in
      let decoded = decode-encode_bucket index bucket.entries out fit sorted e1 in
      (key, e2, was, version, reread index key out version bucket.entries t e2 now decoded)

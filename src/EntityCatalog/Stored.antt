-- ===== src/EntityCatalog/Stored.antt =====
-- What `find_claim` and `write_initial` of src/entity_catalog.cpp leave in the storage.
use fsnet.Base.{none, true, false, refl, ◌∙◌, if◌then◌else◌, Bool, ap, some, Option, ◌≡◌, ℕ}
use fsnet.Base.Errors.{◌>>◌, >>=-eq-ok, ok-subst, ok}
use fsnet.Base.Texts.{Bytes}
use fsnet.Allocator.{Allocator, allocate}
use fsnet.Allocator.Later.{allocate-Later}
use fsnet.EntityCatalog.{EntityCreation, initial_record}
use fsnet.EntityCatalog.Claims.{check_initial, read_claim-version}
use fsnet.EntityCatalog.Create.{write_initial, claim_text, read_claim, check_stored, find_claim}
use fsnet.EntityRecord.{entity_record_key}
use fsnet.EntityRecord.Encode.{encode_entity_record}
use fsnet.Storage.{Record}
use fsnet.Storage.Contract.{StorageContract}

module _ (storage : StorageContract) where
  open storage use {
    State, get, compare_exchange, Proper, Later, later_proper, exchanged, exchange_later, others,
  }

  -- The stored claim says what the claim that was found says.
  pub record Stored (operation fingerprint : Bytes) (t : State) (claim : Option Record)
      : Type 0 where
    pub proper : Proper t
    pub agrees : read_claim fingerprint (get operation t) ≡ read_claim fingerprint claim

  -- The claim that `find_claim` returned is the one in the storage.
  pub find_claim-Stored :
      (operation fingerprint : Bytes) (a b : Allocator) (s t : State) (found claim : Option Record)
      → Proper s
      → get operation s ≡ found
      → find_claim storage found operation fingerprint a s ≡ ok (claim, b, t)
      → Stored operation fingerprint t claim
  unfolding find_claim
  find_claim-Stored operation fingerprint a b s t (some r) claim proper found h =
      ok-subst (λ (q : Option Record × Allocator × State). Stored operation fingerprint q.2 q.0) h
        (record { proper = proper; agrees = ap (read_claim fingerprint) found })
  find_claim-Stored operation fingerprint a b s t none claim proper found h =
      let ((candidate, c, u), e, h1) = >>=-eq-ok (allocate storage a s) _ h in
      let ((claimed, v), done, same) = >>=-eq-ok _ _ h1 in
      let later : Proper u = later_proper proper (allocate-Later storage a c s u candidate e) in
      ok-subst (λ (q : Option Record × Allocator × State). Stored operation fingerprint q.2 q.0)
        same
        (record {
          proper = later_proper later (exchange_later _ _ _ done);
          agrees = by claimed v candidate later done;
        })
    where
      by :
          (claimed : Bool) {u : State} (v : State) (candidate : ℕ)
          → Proper u
          → compare_exchange operation 0 (claim_text candidate fingerprint) u ≡ ok (claimed, v)
          → read_claim fingerprint (get operation v)
            ≡ read_claim fingerprint (
                if claimed
                then some (record { value = claim_text candidate fingerprint; version = 0 })
                else get operation v)
      by true v candidate proper done =
          let (_, (version, now)) =
            exchanged operation (claim_text candidate fingerprint) 0 proper done in
          ap (read_claim fingerprint) now
          ∙ read_claim-version fingerprint (claim_text candidate fingerprint) version
      by false v candidate proper done = refl

  -- The record of the entity passes the checks, and nothing else has changed.
  pub record Written (id : ℕ) (c : EntityCreation) (fingerprint : Bytes) (t u : State)
      : Type 0 where
    pub stored : check_stored c fingerprint (get (entity_record_key id) u) ≡ ok tt
    pub kept : (key : Bytes) → ¬ (entity_record_key id ≡ key) → get key u ≡ get key t

  pub write_initial-Written :
      (found : Option Record) (id : ℕ) (c : EntityCreation) (fingerprint : Bytes) (t u : State)
      → Proper t
      → get (entity_record_key id) t ≡ found
      → write_initial storage found id c fingerprint t ≡ ok u
      → Written id c fingerprint t u
  unfolding write_initial
  write_initial-Written (some r) id c fingerprint t u proper found h =
      let (_, passed, same) = >>=-eq-ok (check_stored c fingerprint (some r)) _ h in
      ok-subst (λ v. Written id c fingerprint t v) same
        (record {
          stored = ap (check_stored c fingerprint) found ∙ passed;
          kept = λ key other. refl;
        })
  write_initial-Written none id c fingerprint t u proper found h =
      let (out, e1, h1) = >>=-eq-ok (encode_entity_record (initial_record c fingerprint)) _ h in
      let ((created, v), done, h2) =
        >>=-eq-ok (compare_exchange (entity_record_key id) 0 out t) _ h1 in
      by created v out e1 done h2
    where
      by :
          (created : Bool) (v : State) (out : Bytes)
          → encode_entity_record (initial_record c fingerprint) ≡ ok out
          → compare_exchange (entity_record_key id) 0 out t ≡ ok (created, v)
          → (if created
              then ok v
              else (check_stored c fingerprint (get (entity_record_key id) v) >> ok v))
            ≡ ok u
          → Written id c fingerprint t u
      by true v out encoded done same =
          let (_, (version, now)) = exchanged (entity_record_key id) out 0 proper done in
          ok-subst (λ w. Written id c fingerprint t w) same
            (record {
              stored =
                  ap (check_stored c fingerprint) now
                  ∙ check_initial c fingerprint out version encoded;
              kept = λ key other. others (entity_record_key id) out key 0 true proper done other;
            })
      by false v out encoded done rest =
          let (_, passed, same) =
            >>=-eq-ok (check_stored c fingerprint (get (entity_record_key id) v)) _ rest in
          ok-subst (λ w. Written id c fingerprint t w) same
            (record {
              stored = passed;
              kept = λ key other. others (entity_record_key id) out key 0 false proper done other;
            })

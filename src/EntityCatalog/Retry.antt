-- ===== src/EntityCatalog/Retry.antt =====
-- A retry of EntityCatalog::create of src/entity_catalog.cpp returns the same identity.
use fsnet.Base.{◌≡◌, ℕ}
use fsnet.Base.Errors.{ok}
use fsnet.Base.Texts.{Bytes}
use fsnet.Allocator.{Allocator}
use fsnet.EntityCatalog.{EntityCreation}
use fsnet.EntityCatalog.Create.{read_claim, check_stored}
use fsnet.EntityRecord.{entity_record_key}
use fsnet.Storage.Contract.{StorageContract}

module _ (storage : StorageContract) where
  open storage use {
    State, get, compare_exchange, Proper, Later, later_proper, exchanged, exchange_later, others,
  }

  -- What a creation leaves behind: a claim of its key and the record of its entity.
  record Created (operation fingerprint : Bytes) (c : EntityCreation) (u : State) (id : ℕ)
      : Type 0 where
    pub claimed : read_claim fingerprint (get operation u) ≡ ok id
    pub stored : check_stored c fingerprint (get (entity_record_key id) u) ≡ ok tt

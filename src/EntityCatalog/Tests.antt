-- ===== src/EntityCatalog/Tests.antt =====
-- A creation in src/entity_catalog.cpp at concrete inputs.
use fsnet.Base.{length, ok, err, ℕ, zero, suc, ◌%◌, [], ◌∷◌}
use fsnet.Base.Errors.{Outcome}
use fsnet.Base.Texts.{codes, Bytes}
use fsnet.Allocator.{Allocator}
use fsnet.EntityCatalog.{EntityCreation}
use fsnet.EntityCatalog.Create.{create}
use fsnet.Storage.{Memory}
use fsnet.Storage.Contract.{memory_storage}
use fsnet.Storage.Tests.{empty_store}

abbrev zeros : ℕ → Bytes
zeros zero = []
zeros (suc n) = 0 ∷ zeros n

-- A stand-in for SHA-256: 32 bytes of which the first is the length.
abbrev sha256 : Bytes → Bytes
sha256 text = (length text % 256) ∷ zeros 31

abbrev creation : EntityCreation
creation = record {
  type = codes "npc";
  owner_connection = [];
  state = codes "hp";
  target_node = codes "n1";
  persistence = 1;
}

abbrev fresh : Allocator
fresh = record { block_size = 16; next = 0; remaining = 0 }

abbrev used : Allocator
used = record { block_size = 16; next = 2; remaining = 15 }

abbrev store_of : Outcome (ℕ × Allocator × Memory) → Memory
store_of (ok (id, a, s)) = s
store_of (err e) = empty_store

abbrev after : Memory
after =
    store_of (create memory_storage sha256 (codes "boot") (codes "k1") creation fresh empty_store)

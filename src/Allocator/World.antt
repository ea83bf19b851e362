-- ===== src/Allocator/World.antt =====
-- Several allocators on one storage: the steps of src/entity_catalog.cpp that can interleave. An
-- allocator's mutex makes its own calls follow one another, and every access to the storage is
-- atomic; between the read and the exchange of one allocator, all others may take steps.
use fsnet.Base.{◌^◌, ℕ, ◌<◌, ◌≡◌, Bool, List, ◌∷◌, [], Option, none, some, ok, ◌==◌, if◌then◌else◌}
use fsnet.Allocator.{Allocator, sequence_key, high_water, take_id, swap_block, make_allocator}
use fsnet.Storage.{Record}
use fsnet.Storage.Contract.{StorageContract}

-- The state of allocator `i` changed.
abbrev pub set {ℓ} : {A : Type ℓ} → ℕ → A → (ℕ → A) → ℕ → A
set i a f j = if i == j then a else f j

module _ (storage : StorageContract) where
  open storage use {State, get, Proper, Later}

  pub record World : Type 0 where
    pub store : State
    pub allocators : ℕ → Allocator
    -- what an allocator read in the pass of its loop that it is in
    pub previous : ℕ → Option (Option Record)
    -- all that `allocate` returned, by any of them
    pub issued : List ℕ

  pub data Step (w : World) : World → Type 0 where
    reads :
        (i : ℕ)
        → (w.allocators i).remaining ≡ 0
        → Step w (record w { previous = set i (some (get sequence_key w.store)) w.previous })
    swaps :
        {t : State} {b : Allocator} {r : Bool}
        → (i : ℕ) (p : Option Record) → w.previous i ≡ some p
        → (w.allocators i).remaining ≡ 0
        → swap_block storage (w.allocators i) p w.store ≡ ok (r, b, t)
        → Step w (record w {
          store = t;
          allocators = set i b w.allocators;
          previous = set i none w.previous;
        })
    takes :
        {id : ℕ} {b : Allocator}
        → (i : ℕ) → 0 < (w.allocators i).remaining
        → take_id (w.allocators i) ≡ ok (id, b)
        → Step w (record w { allocators = set i b w.allocators; issued = id ∷ w.issued })
    -- an exception, or a process that stops and starts anew: its block is lost
    restarts :
        {b : Allocator}
        → (i block_size : ℕ) → make_allocator block_size ≡ ok b
        → Step w (record w { allocators = set i b w.allocators; previous = set i none w.previous })
    -- work of other components on other keys
    others :
        {t : State}
        → Later w.store t
        → get sequence_key t ≡ get sequence_key w.store
        → Step w (record w { store = t })

  pub data Reaches (w : World) : World → Type 0 where
    here : Reaches w w
    step : {v u : World} → Reaches w v → Step v u → Reaches w u

  -- Allocators as they are constructed, on a storage whose mark fits a std::uint64_t.
  pub record IsStart (w : World) : Type 0 where
    pub proper : Proper w.store
    pub word : (high : ℕ) → high_water (get sequence_key w.store) ≡ ok high → high < 2 ^ 64
    pub empty : (i : ℕ) → (w.allocators i).remaining ≡ 0
    pub idle : (i : ℕ) → w.previous i ≡ none
    pub none_issued : w.issued ≡ []

-- ===== src/Allocator/Tests.antt =====
-- Allocators at concrete inputs, on the in-memory storage.
use fsnet.Base.{ℕ, ◌+◌, ◌-◌, ◌<◌, ◌≡◌, refl, true, false, [], ◌∷◌, none, some, All, arith}
use fsnet.Base.Maps.{find, insert_or_assign}
use fsnet.Base.Texts.{text_eq}
use fsnet.Allocator.{
  take_id, Allocator, sequence_key, high_water, high_value, swap_block, block_count,
}
use fsnet.Allocator.Alone.{Allocates, allocate_alone}
use fsnet.Allocator.Sound.{AllDiffer}
use fsnet.Allocator.Unique.{issued_once}
use fsnet.Allocator.World.{takes, swaps, reads, here, step, World, Reaches, IsStart, set}
use fsnet.EntityId.{entity_id}
use fsnet.Storage.{transact, compare_exchange, get, Memory}
use fsnet.Storage.Contract.{memory_storage}
use fsnet.Storage.Tests.{empty_store, empty_store-IsStore}
use fsnet.Wire.{put_uint}

abbrev small : Allocator
small = record { block_size = 2; next = 0; remaining = 0 }

abbrev reserved : Memory
reserved = record {
  records = (sequence_key, record { value = high_value 2; version = 1 }) ∷ [];
  revision = 1;
}

abbrev fresh : World memory_storage
fresh = record { store = empty_store; allocators = λ i. small; previous = λ i. none; issued = [] }

fresh-IsStart : IsStart memory_storage fresh
unfolding high_water find get
fresh-IsStart = record {
  proper = empty_store-IsStore;
  word = λ high e. ground arith;
  empty = λ i. refl;
  idle = λ i. refl;
  none_issued = refl;
}

-- Two allocators read the same mark; the second to exchange is refused.
abbrev both_read : World memory_storage
both_read = record fresh { previous = set 1 (some none) (set 0 (some none) fresh.previous) }

abbrev first_won : World memory_storage
first_won = record {
  store = reserved;
  allocators = set 0 (record small { next = 1; remaining = 2 }) fresh.allocators;
  previous = set 0 none both_read.previous;
  issued = [];
}

abbrev second_lost : World memory_storage
second_lost = record first_won {
  allocators = set 1 small first_won.allocators;
  previous = set 1 none first_won.previous;
}

abbrev one_issued : World memory_storage
one_issued = record second_lost {
  allocators = set 0 (record small { next = 2; remaining = 1 }) second_lost.allocators;
  issued = 1 ∷ [];
}

abbrev two_issued : World memory_storage
two_issued = record one_issued {
  allocators = set 0 (record small { next = 2; remaining = 0 }) one_issued.allocators;
  issued = 2 ∷ 1 ∷ [];
}

run : Reaches memory_storage fresh two_issued
unfolding swap_block high_water take_id entity_id get find compare_exchange transact text_eq
    put_uint insert_or_assign
run =
    step
      (step
        (step
          (step (step (step here (reads 0 refl)) (reads 1 refl)) (
            swaps {t = reserved} {b = record small { next = 1; remaining = 2 }} {r = true} 0 none
              refl refl refl))
          (swaps {t = reserved} {b = small} {r = false} 1 none refl refl refl))
        (takes {id = 1} {b = record small { next = 2; remaining = 1 }} 0 (omega arith) refl))
      (takes {id = 2} {b = record small { next = 2; remaining = 0 }} 0 (omega arith) refl)

issued_once_example : AllDiffer (2 ∷ 1 ∷ []) × All (λ x. 0 < x) (2 ∷ 1 ∷ [])
issued_once_example = issued_once memory_storage fresh-IsStart run

allocate_alone_example :
    (0 < 0 → 0 < 0 → Allocates memory_storage small empty_store 0 (0 - 1) 0)
    × (◌≡◌ {A = ℕ} 0 0
        → Allocates memory_storage small empty_store
            (0 + 1)
            (block_count 2 0 - 1)
            (0 + block_count 2 0))
unfolding high_water get find
allocate_alone_example =
    allocate_alone memory_storage small empty_store 0 empty_store-IsStore (omega arith)
      (omega arith) refl (omega arith)

-- ===== src/Allocator.antt =====
-- EntityIdAllocator of src/entity_catalog.cpp: blocks of identities reserved in a shared storage.
pub mod World
pub mod Blocks
pub mod Sound
pub mod Unique
pub mod Alone
pub mod Later
mod Tests
use fsnet.Base.{
  ℕ, zero, suc, ◌+◌, ◌-◌, ◌^◌, Bool, true, false, not, ◌||◌, ◌∷◌, List, Option, none, some, ◌++◌,
  ltb, ◌==◌, if◌then◌else◌, length, Bytes, codes, starts_with, drop, min,
}
use fsnet.Base.Errors.{
  invalid_argument, runtime_error, overflow_error, Outcome, ok, ◌>>=◌, ◌>>◌, throw_if,
}
use fsnet.EntityId.{entity_id}
use fsnet.Storage.{Record, version_of}
use fsnet.Storage.Contract.{StorageContract}
use fsnet.Wire.{get_integer, put_integer}

abbrev pub sequence_key : Bytes
sequence_key = codes "fsnet/identity/high-water/v1"

pub record Allocator : Type 0 where
  pub block_size : ℕ
  pub next : ℕ
  pub remaining : ℕ

-- The constructor.
unfoldable pub make_allocator : ℕ → Outcome Allocator
make_allocator block_size = do
  throw_if (block_size == 0 || ltb 1048576 block_size) invalid_argument
  ok (record { block_size = block_size; next = 0; remaining = 0 })

-- The last identity that any allocator has reserved, as the stored record says.
unfoldable pub high_water : Option Record → Outcome ℕ
high_water none = ok 0
high_water (some previous) = do
  throw_if (not (length previous.value == 12) || not (starts_with previous.value (codes "FEI1")))
      runtime_error
  word ← get_integer (drop 4 previous.value)
  ok word.0

-- How many identities after `high` a block takes.
abbrev pub block_count : ℕ → ℕ → ℕ
block_count block_size high = min block_size (2 ^ 64 - 1 - high)

abbrev pub high_value : ℕ → Bytes
high_value high = codes "FEI1" ++ put_integer high

-- The end of `allocate`: one identity out of the block.
unfoldable pub take_id : Allocator → Outcome (ℕ × Allocator)
take_id a = do
  id ← entity_id a.next
  let left = a.remaining - 1
  ok (id, record a { next = if left == 0 then a.next else a.next + 1; remaining = left })

module _ (storage : StorageContract) where
  open storage use {State, get, compare_exchange}

  -- One pass of the loop of `allocate` after its read, which returned `previous`. It returns
  -- whether the loop is left.
  unfoldable pub swap_block : Allocator → Option Record → State → Outcome (Bool × Allocator × State)
  unfolding high_water
  swap_block a previous s = do
    high ← high_water previous
    throw_if (high == 2 ^ 64 - 1) overflow_error
    let count = block_count a.block_size high
    swapped ← compare_exchange sequence_key (version_of previous) (high_value (high + count)) s
    ok (
      swapped.0,
      if swapped.0 then record a { next = high + 1; remaining = count } else a,
      swapped.1,
    )

  -- `for(unsigned attempt=0;attempt<128;++attempt)`, where nobody else works on the storage
  -- between the read and the exchange
  unfoldable pub refill : ℕ → Allocator → State → Outcome (Allocator × State)
  unfolding swap_block
  refill zero a s = ok (a, s)
  refill (suc attempts) a s = do
    (done, b, t) ← swap_block a (get sequence_key s) s
    elim done [ true ↦ ok (b, t) | false ↦ refill attempts b t ]

  unfoldable pub allocate : Allocator → State → Outcome (ℕ × Allocator × State)
  unfolding refill take_id
  allocate a s = do
    (filled, t) ← (if a.remaining == 0 then refill 128 a s else ok (a, s))
    throw_if (filled.remaining == 0) runtime_error
    (id, left) ← take_id filled
    ok (id, left, t)

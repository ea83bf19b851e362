-- ===== src/Allocator/Alone.antt =====
-- `allocate` without competition.
use fsnet.Base.{
  min, ◌∙◌, ap, false, refl, ◌==◌, if◌then◌else◌, ◌-◌, ◌^◌, ℕ, ◌+◌, ◌<◌, ◌≡◌, arith, ok, true, suc,
}
use fsnet.Base.Tests.{==_iff, ==_false}
use fsnet.Allocator.{
  high_value, Allocator, sequence_key, high_water, allocate, swap_block, refill, take_id,
  block_count,
}
use fsnet.Allocator.Blocks.{high_water-high_value}
use fsnet.EntityId.{entity_id}
use fsnet.Storage.{version_of}
use fsnet.Storage.Contract.{StorageContract}
use fsnet.Wire.RoundTrip.{length-put_uint}

module _ (storage : StorageContract) where
  open storage use {State, get, compare_exchange, Proper, Room, exchanges, exchanged}

  -- The call returns `id`. The allocator is left with the rest of its block, which begins with the
  -- next identity, and all identities up to `high` are reserved in the storage.
  pub record Allocates (a : Allocator) (s : State) (id left high : ℕ) : Type 0 where
    pub allocator : Allocator
    pub state : State
    pub returns : allocate storage a s ≡ ok (id, allocator, state)
    pub left_over : allocator.remaining ≡ left
    pub next_one : 0 < left → allocator.next ≡ id + 1
    pub same_size : allocator.block_size ≡ a.block_size
    pub reserved : high_water (get sequence_key state) ≡ ok high

  swap_block_alone :
      (a : Allocator) (s : State) (high : ℕ)
      → Proper s
      → Room s
      → high_water (get sequence_key s) ≡ ok high
      → high < 2 ^ 64 - 1
      → (t : State) × (swap_block storage a (get sequence_key s) s
          ≡ ok (true, record a { next = high + 1; remaining = block_count a.block_size high }, t))
        × (high_water (get sequence_key t) ≡ ok (high + block_count a.block_size high))
  unfolding swap_block
  swap_block_alone a s high proper room mark low =
      let new = high_value (high + block_count a.block_size high) in
      let (t, done) =
        exchanges sequence_key new s proper room (omega arith) (omega arith)
          (omega (arith, length-put_uint 8 (high + block_count a.block_size high))) in
      let (_, (version, now)) =
        exchanged sequence_key new (version_of (get sequence_key s)) proper done in
      (
        t,
        rw (mark, ==_false high (2 ^ 64 - 1) (omega arith), done) refl,
        ap high_water now
            ∙ high_water-high_value (high + block_count a.block_size high) version (omega arith),
      )

  refill_alone :
      (attempts : ℕ) (a b : Allocator) (s t : State)
      → swap_block storage a (get sequence_key s) s ≡ ok (true, b, t)
      → refill storage (suc attempts) a s ≡ ok (b, t)
  unfolding refill
  refill_alone attempts a b s t h = rw h refl

  next_after : (left next : ℕ) → 0 < left → (if left == 0 then next else next + 1) ≡ next + 1
  next_after left next some_left = rw (==_false left 0 (omega arith)) refl

  -- On a proper storage with room for a write, whose mark is not the last identity: an allocator with
  -- identities left hands out the next one, which is not 0, and the mark stays; an empty one, while
  -- nobody else works on the storage, reserves a block of the identities after the mark, as many as
  -- its size, which is not 0, and the 64-bit words allow, and hands out the first of them. The rest of
  -- the block follows the identity that was handed out.
  pub allocate_alone :
      (a : Allocator) (s : State) (high : ℕ)
      → Proper s
      → Room s
      → 0 < a.block_size
      → high_water (get sequence_key s) ≡ ok high
      → high < 2 ^ 64 - 1
      → (0 < a.remaining → 0 < a.next → Allocates a s a.next (a.remaining - 1) high)
        × (a.remaining ≡ 0
            → Allocates a s
                (high + 1)
                (min a.block_size (2 ^ 64 - 1 - high) - 1)
                (high + min a.block_size (2 ^ 64 - 1 - high)))
  unfolding allocate take_id entity_id
  allocate_alone a s high proper room size mark low = (kept, filled)
    where
      kept : 0 < a.remaining → 0 < a.next → Allocates a s a.next (a.remaining - 1) high
      kept some_left pos =
          let full : (a.remaining == 0) ≡ false = ==_false a.remaining 0 (omega arith) in
          let id : (a.next == 0) ≡ false = ==_false a.next 0 (omega arith) in
          record {
            allocator = record a {
              next = if a.remaining - 1 == 0 then a.next else a.next + 1;
              remaining = a.remaining - 1;
            };
            state = s;
            returns = rw (full, full, id) refl;
            left_over = refl;
            next_one = next_after (a.remaining - 1) a.next;
            same_size = refl;
            reserved = mark;
          }

      filled :
          a.remaining ≡ 0
          → Allocates a s
              (high + 1)
              (block_count a.block_size high - 1)
              (high + block_count a.block_size high)
      filled empty =
          let (t, done, moved) = swap_block_alone a s high proper room mark low in
          let none_left : (a.remaining == 0) ≡ true = (==_iff a.remaining 0).1 empty in
          let count : (block_count a.block_size high == 0) ≡ false =
            ==_false (block_count a.block_size high) 0 (omega arith) in
          record {
            allocator = record a {
              next = if block_count a.block_size high - 1 == 0 then high + 1 else high + 1 + 1;
              remaining = block_count a.block_size high - 1;
            };
            state = t;
            returns =
                rw
                  (
                    none_left,
                    refill_alone 127 a _ s t done,
                    count,
                    ==_false (high + 1) 0 (omega arith),
                  )
                  refl;
            left_over = refl;
            next_one = next_after (block_count a.block_size high - 1) (high + 1);
            same_size = refl;
            reserved = moved;
          }

-- ===== src/Allocator/Blocks.antt =====
-- What one pass of the loop of `allocate` and one taken identity do.
use fsnet.Base.{
  ◌==◌, throw_if-eq-ok, >>=-eq-ok, ◌∙◌, if◌then◌else◌, refl, ◌-◌, [], sym, ap, arith, ◌^◌, ◌+◌, ◌≡◌,
  ◌≤◌, ◌<◌, false, true, Bool, Option, some, ℕ, starts_with,
}
use fsnet.Base.Errors.{ok-subst, ok}
use fsnet.Allocator.{
  make_allocator, Allocator, sequence_key, high_water, high_value, block_count, take_id, swap_block,
}
use fsnet.EntityId.{entity_id}
use fsnet.Storage.{version_of, Record}
use fsnet.Storage.Contract.{StorageContract}
use fsnet.Wire.{put_integer, get_integer}
use fsnet.Wire.RoundTrip.{get_integer-put_integer, length-put_uint}
use mathlib.Core.List.{append-nil}
use mathlib.Core.Path.{subst}

get_integer_whole : (n : ℕ) → n < 2 ^ 64 → get_integer (put_integer n) ≡ ok (n, [])
get_integer_whole n word = rw (append-nil (put_integer n)) at (get_integer-put_integer n [] word)

pub high_water-high_value :
    (high version : ℕ)
    → high < 2 ^ 64
    → high_water (some (record { value = high_value high; version = version })) ≡ ok high
unfolding high_water starts_with
high_water-high_value high version word =
    rw (length-put_uint 8 high, get_integer_whole high word) refl

-- The range of identities that an allocator may still hand out.
abbrev pub Holds : Allocator → ℕ → Type 0
Holds a x = (a.next ≤ x) × (x < a.next + a.remaining)

pub take_id_inv :
    (a b : Allocator) (id : ℕ)
    → 0 < a.remaining
    → take_id a ≡ ok (id, b)
    → Holds a id
      × (0 < id)
      × ((x : ℕ) → Holds b x → Holds a x × ¬ (x ≡ id))
      × (b.remaining + 1 ≡ a.remaining)
unfolding take_id entity_id
take_id_inv a b id some_left h = ground arith

pub make_allocator_empty :
    (block_size : ℕ) (a : Allocator) → make_allocator block_size ≡ ok a → a.remaining ≡ 0
unfolding make_allocator
make_allocator_empty block_size a h = ground arith

module _ (storage : StorageContract) where
  open storage use {
    State, get, compare_exchange, Proper, Later, exchange_later, exchanged, refuses, same_version,
  }

  -- `p` is what a read of the sequence returned at some earlier state.
  pub record Seen (s : State) (p : Option Record) : Type 0 where
    pub earlier : State
    pub proper : Proper earlier
    pub later : Later earlier s
    pub read : get sequence_key earlier ≡ p

  -- A pass either loses the race and changes nothing, or reserves the identities that follow on
  -- the stored mark.
  pub record Reserved (a b : Allocator) (s t : State) : Type 0 where
    pub high : ℕ
    pub was : high_water (get sequence_key s) ≡ ok high
    pub below_max : high < 2 ^ 64 - 1
    pub next : b.next ≡ high + 1
    pub count : b.remaining ≡ block_count a.block_size high
    pub becomes : high_water (get sequence_key t) ≡ ok (high + b.remaining)

  pub data Passed (a : Allocator) (s : State) : Allocator → State → Bool → Type 0 where
    lost : Passed a s a s false
    won : {b : Allocator} {t : State} → Later s t → Reserved a b s t → Passed a s b t true

  after_exchange :
      (a : Allocator) (p : Option Record) (high : ℕ) (s u : State) (swapped : Bool)
      → Proper s
      → Seen s p
      → high_water p ≡ ok high
      → high < 2 ^ 64 - 1
      → compare_exchange sequence_key
          (version_of p)
          (high_value (high + block_count a.block_size high))
          s
        ≡ ok (swapped, u)
      → Passed a s
          (if swapped
            then record a { next = high + 1; remaining = block_count a.block_size high }
            else a)
          u
          swapped
  after_exchange a p high s u false proper seen mark low done =
      subst (λ v. Passed a s a v false) (sym (refuses sequence_key _ _ proper done)) lost
  after_exchange a p high s u true proper seen mark low done =
      let (was, (version, now)) = exchanged sequence_key _ _ proper done in
      let same : get sequence_key s ≡ p =
        sym (same_version sequence_key seen.proper seen.later (ap version_of seen.read ∙ sym was))
        ∙ seen.read in
      won (exchange_later sequence_key _ _ done) (record {
        high = high;
        was = ap high_water same ∙ mark;
        below_max = low;
        next = refl;
        count = refl;
        becomes =
            ap high_water now
            ∙ high_water-high_value (high + block_count a.block_size high) version (omega arith);
      })

  pub swap_block_inv :
      (a b : Allocator) (p : Option Record) (s t : State) (r : Bool)
      → Proper s
      → Seen s p
      → ((high : ℕ) → high_water p ≡ ok high → high < 2 ^ 64)
      → swap_block storage a p s ≡ ok (r, b, t)
      → Passed a s b t r
  unfolding swap_block
  swap_block_inv a b p s t r proper seen word h =
      let (high, mark, checks) = >>=-eq-ok (high_water p) _ h in
      let (low, exchange) = throw_if-eq-ok (high == 2 ^ 64 - 1) _ _ checks in
      let ((swapped, u), done, same) = >>=-eq-ok _ _ exchange in
      ok-subst (λ (q : Bool × Allocator × State). Passed a s q.1 q.2 q.0) same
        (after_exchange a p high s u swapped proper seen mark (ground (arith, word high mark)) done)

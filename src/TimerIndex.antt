-- ===== src/TimerIndex.antt =====
-- src/entity_timer_index.cpp with src/entity_timer_index.hpp: the index that lists, in 64 shared
-- records, the entities that have a timer.
pub mod Encode
pub mod Decode
pub mod Operations
pub mod Fields
pub mod Reread
pub mod Armed
mod Tests
use fsnet.Base.{
  ◌&&◌, ◌==◌, not, length, ◌||◌, ◌^◌, is_empty, [], ◌*◌, ltb, Bool, ◌∷◌, ◌++◌, if◌then◌else◌, map,
  ℕ, zero, suc, ◌+◌, ◌/◌, ◌%◌,
}
use fsnet.Base.Errors.{ok, invalid_argument, ◌>>=◌, ◌>>◌, throw_if, Outcome}
use fsnet.Base.Int.{is_negative, ℤ}
use fsnet.Base.Maps.{Map}
use fsnet.Base.Tests.{leb}
use fsnet.Base.Texts.{codes, Bytes}
use fsnet.EntityId.{valid_entity_id}
use fsnet.EntityRecord.{valid_entity_node}
use fsnet.Message.{has_separator}
use Prim.Native.Nat.{bit_xor}

abbrev pub shards : ℕ
shards = 64

abbrev pub per_shard : ℕ
per_shard = 4096

pub record Entry : Type 0 where
  pub type : Bytes
  pub id : Bytes
  pub token : Bytes
  pub base_version : ℕ
  pub fence : ℕ
  pub due_ms : ℤ
  pub pending : Bool
  pub placement : Bytes

pub record Bucket : Type 0 where
  pub version : ℕ
  pub entries : Map Entry

-- `std::to_string` of a shard, which has at most two digits
unfoldable pub to_string : ℕ → Bytes
to_string index =
    if ltb index 10 then (b'0' + index) ∷ [] else (b'0' + index / 10) ∷ (b'0' + index % 10) ∷ []

unfoldable pub storage_key : ℕ → Outcome Bytes
unfolding to_string
storage_key index = do
  throw_if (leb shards index) invalid_argument
  ok (codes "fsnet/timers/index/v1/" ++ to_string index)

-- The test of `valid`, which throws where it is true.
unfoldable pub bad_entry : Entry → Bool
unfolding has_separator valid_entity_id valid_entity_node
bad_entry entry =
    is_empty entry.type
    || ltb 127 (length entry.type)
    || has_separator entry.type
    || not (valid_entity_id entry.id)
    || is_empty entry.token
    || ltb 64 (length entry.token)
    || entry.base_version == 0
    || entry.fence == 0
    || is_negative entry.due_ms
    || (not (is_empty entry.placement) && not (valid_entity_node entry.placement))

unfoldable pub identity : Bytes → Bytes → Bytes
identity type id = type ++ (0 ∷ id)

unfoldable pub shard_loop : Bytes → ℕ → ℕ
shard_loop [] hash = hash
shard_loop (byte ∷ id) hash = shard_loop id (bit_xor hash byte * 1099511628211 % 2 ^ 64)

unfoldable pub shard : Bytes → ℕ
unfolding shard_loop
shard id = shard_loop id 14695981039346656037 % shards

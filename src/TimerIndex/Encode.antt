-- ===== src/TimerIndex/Encode.antt =====
-- How src/entity_timer_index.cpp writes a shard of the index.
use fsnet.Base.{[], ◌∷◌, ◌++◌, ◌==◌, ◌*◌, ◌||◌, length, not, ℕ}
use fsnet.Base.Errors.{length_error, invalid_argument, ok, Outcome, ◌>>=◌, ◌>>◌, throw_if}
use fsnet.Base.Int.{to_u64}
use fsnet.Base.Maps.{Map}
use fsnet.Base.Tests.{ltb}
use fsnet.Base.Texts.{codes, text_eq, Bytes}
use fsnet.TimerIndex.{shard, identity, per_shard, bad_entry, Entry}
use fsnet.Wire.{flag, put_integer, put_blob, put_number}

-- The part of `write` for one entry.
unfoldable pub put_entry : ℕ → Bytes → Entry → Outcome Bytes
put_entry index key entry = do
  throw_if (bad_entry entry) invalid_argument
  throw_if (not (text_eq key (identity entry.type entry.id)) || not (shard entry.id == index))
      invalid_argument
  type ← put_blob entry.type
  id ← put_blob entry.id
  token ← put_blob entry.token
  placement ← put_blob entry.placement
  ok (
      type
      ++ (id
          ++ (token
              ++ (put_integer entry.base_version
                  ++ (put_integer entry.fence
                      ++ (put_integer (to_u64 entry.due_ms)
                          ++ (placement ++ (flag entry.pending ∷ []))))))))

unfoldable pub put_entries : ℕ → Map Entry → Outcome Bytes
unfolding put_entry
put_entries index [] = ok []
put_entries index ((key, entry) ∷ entries) = do
  out ← put_entry index key entry
  rest ← put_entries index entries
  ok (out ++ rest)

-- The text that `write` stores.
unfoldable pub encode_bucket : ℕ → Map Entry → Outcome Bytes
unfolding put_entries
encode_bucket index entries = do
  throw_if (ltb per_shard (length entries)) length_error
  body ← put_entries index entries
  let out = codes "FTI2" ++ (put_number (length entries) ++ body)
  throw_if (ltb (1024 * 1024) (length out)) length_error
  ok out

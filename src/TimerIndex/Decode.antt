-- ===== src/TimerIndex/Decode.antt =====
-- How src/entity_timer_index.cpp reads a shard of the index.
use fsnet.Base.{zero, suc, [], not, ◌||◌, length, ◌*◌, if◌then◌else◌, ltb, ℕ}
use fsnet.Base.Errors.{err, invalid_argument, runtime_error, Outcome}
use fsnet.Base.Int.{pos, int64_max}
use fsnet.Base.Lists.{drop}
use fsnet.Base.Maps.{emplace, Map}
use fsnet.Base.Texts.{codes, starts_with, Bytes}
use fsnet.TimerIndex.{per_shard, bad_entry, identity, Entry}
use fsnet.Wire.{
  throw_unless_empty, get_number, value_of, get_flag, or_throw, get_integer, get_blob, Reader,
  ◌>>=◌, ◌>>◌, throw_if, pure,
}

-- The part of `read` for one entry.
unfoldable pub get_entry : Reader Entry
get_entry = do
  type ← get_blob
  id ← get_blob
  token ← get_blob
  base_version ← get_integer
  fence ← get_integer
  due ← get_integer
  placement ← get_blob
  throw_if (ltb int64_max due) runtime_error
  pending ← get_flag runtime_error
  let entry : Entry = record {
    type = type;
    id = id;
    token = token;
    base_version = base_version;
    fence = fence;
    due_ms = pos due;
    pending = pending;
    placement = placement;
  }
  throw_if (bad_entry entry) invalid_argument
  pure entry

-- `entries` are those already read.
unfoldable pub get_entries : ℕ → Map Entry → Reader (Map Entry)
unfolding get_entry
get_entries zero entries = pure entries
get_entries (suc count) entries = do
  entry ← get_entry
  more ← or_throw (emplace (identity entry.type entry.id) entry entries) runtime_error
  get_entries count more

-- The bucket of the record that was found, or that of no record.
unfoldable pub decode_bucket : Bytes → Outcome (Map Entry)
unfolding get_entries
decode_bucket input =
    if ltb (1024 * 1024) (length input) || not (starts_with input (codes "FTI2"))
    then err runtime_error
    else value_of (
        (do
          count ← get_number
          throw_if (ltb per_shard count) runtime_error
          entries ← get_entries count []
          throw_unless_empty runtime_error
          pure entries)
          (drop 4 input))

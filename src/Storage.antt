-- ===== src/Storage.antt =====
-- include/fsnet/storage.hpp and the in-memory backend of src/database.cpp: versioned records,
-- compare-and-swap and atomic multi-record transactions.
pub mod Apply
pub mod Transact
pub mod Committed
pub mod Decides
pub mod View
pub mod History
pub mod Swap
pub mod Contract
pub mod Tests
use fsnet.Base.{
  ℕ, ◌+◌, ◌-◌, ◌%◌, ◌^◌, ◌*◌, Bool, true, false, not, ◌&&◌, ◌||◌, List, [], ◌∷◌, Option, none, some,
  is_some, ltb, leb, ◌==◌, if◌then◌else◌, length, is_empty, Bytes, text_eq,
}
use fsnet.Base.Int.{int64_max}
use fsnet.Base.Maps.{Map, find, insert_or_assign, erase}
use fsnet.Base.Errors.{
  invalid_argument, length_error, overflow_error, Outcome, ok, err, ◌>>=◌, ◌>>◌, throw_if,
}

pub record Record : Type 0 where
  pub value : Bytes
  pub version : ℕ

pub record Mutation : Type 0 where
  pub key : Bytes
  pub expected : ℕ
  pub value : Option Bytes
  pub check_only : Bool

pub record Memory : Type 0 where
  pub records : Map Record
  pub revision : ℕ

-- The versions that a std::int64_t holds.
abbrev pub max_version : ℕ
max_version = int64_max

abbrev too_long : Option Bytes → Bool
too_long none = false
too_long (some text) = ltb (16 * 1024 * 1024) (length text)

unfoldable pub is_member : Bytes → List Bytes → Bool
is_member key [] = false
is_member key (k ∷ keys) = text_eq k key || is_member key keys

-- The loop of `validate`; `keys` are those seen so far.
unfoldable pub validate_loop : List Mutation → List Bytes → Outcome (Unit {0})
unfolding is_member
validate_loop [] keys = ok tt
validate_loop (m ∷ mutations) keys = do
  throw_if
      (leb max_version m.expected || ltb 4096 (length m.key) || is_empty m.key || too_long m.value)
      invalid_argument
  throw_if (is_member m.key keys) invalid_argument
  validate_loop mutations (m.key ∷ keys)

unfoldable pub validate : List Mutation → Outcome (Unit {0})
unfolding validate_loop
validate mutations = do
  throw_if (ltb 1024 (length mutations)) length_error
  validate_loop mutations []

-- `it == end() ? 0 : it->second.version`
abbrev pub version_of : Option Record → ℕ
version_of none = 0
version_of (some r) = r.version

-- The test that every mutation must pass, or nothing is done.
unfoldable pub is_current : Map Record → Mutation → Bool
is_current records m =
    let version = version_of (find m.key records) in
    not (not (version == m.expected) || (not m.check_only && not (is_some m.value) && version == 0))

unfoldable pub all_current : Map Record → List Mutation → Bool
unfolding is_current
all_current records [] = true
all_current records (m ∷ mutations) = is_current records m && all_current records mutations

-- One mutation on the copy of the records and the running revision: by its key, `check_only` and
-- value.
unfoldable pub write : Bytes → Bool → Option Bytes → Memory → Memory
write key true value s = s
write key false (some text) s = record {
  records = insert_or_assign key (record { value = text; version = s.revision + 1 }) s.records;
  revision = s.revision + 1;
}
write key false none s = record s { records = erase key s.records }

unfoldable pub apply_one : Mutation → Memory → Memory
unfolding write
apply_one m s = write m.key m.check_only m.value s

unfoldable pub apply_all : List Mutation → Memory → Memory
unfolding apply_one
apply_all [] s = s
apply_all (m ∷ mutations) s = apply_all mutations (apply_one m s)

-- `Memory::transact`; the subtraction is that of std::uint64_t.
unfoldable pub transact : List Mutation → Memory → Outcome (Bool × Memory)
unfolding validate all_current apply_all
transact mutations s = do
  validate mutations
  if not (all_current s.records mutations)
      then ok (false, s)
      else if leb ((max_version + 2 ^ 64 - s.revision) % 2 ^ 64) (length mutations)
      then err overflow_error
      else ok (true, apply_all mutations s)

unfoldable pub get : Bytes → Memory → Option Record
get key s = find key s.records

unfoldable pub compare_exchange : Bytes → ℕ → Bytes → Memory → Outcome (Bool × Memory)
compare_exchange key expected value s =
    transact
      (record { key = key; expected = expected; value = some value; check_only = false } ∷ []) s

unfoldable pub erase_record : Bytes → ℕ → Memory → Outcome (Bool × Memory)
erase_record key expected s =
    transact (record { key = key; expected = expected; value = none; check_only = false } ∷ []) s

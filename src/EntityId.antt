-- ===== src/EntityId.antt =====
-- include/fsnet/entity_id.hpp: the logical identity of an entity, a nonzero std::uint64_t, its
-- 16 lowercase hexadecimal digits and its eight bytes.
pub mod Digits
pub mod Canonical
mod Tests
use fsnet.Base.{
  ℕ, zero, suc, ◌+◌, ◌-◌, ◌*◌, ◌/◌, ◌%◌, ◌^◌, Bool, true, false, not, ◌&&◌, ◌||◌, List, [], ◌∷◌,
  Option, none, some, leb, ltb, ◌==◌, if◌then◌else◌, length, Bytes, codes, text_eq,
}
use fsnet.Base.Errors.{Outcome, ok, err, invalid_argument, ◌>>=◌, ◌>>◌, throw_if}
use fsnet.Wire.{put_uint, get_loop}

-- The constructor from a number; an identity is the number that it holds.
unfoldable pub entity_id : ℕ → Outcome ℕ
entity_id value = if value == 0 then err invalid_argument else ok value

-- `hex[value & 15]` of the table "0123456789abcdef"
unfoldable pub hex_char : ℕ → ℕ
hex_char digit = if ltb digit 10 then b'0' + digit else b'a' + digit - 10

unfoldable pub hex_value : ℕ → Option ℕ
hex_value c =
    if leb b'0' c && leb c b'9'
    then some (c - b'0')
    else if leb b'a' c && leb c b'f'
    then some (c - b'a' + 10)
    else none

-- `value_ = (value_ << 4) | digit`: the shifted word ends in four zeros, so `|` adds.
unfoldable pub parse_digits : Bytes → ℕ → Outcome ℕ
parse_digits [] value = ok value
parse_digits (c ∷ text) value = elim (hex_value c) [
  | none ↦ err invalid_argument
  | some digit ↦ parse_digits text (value * 16 % 2 ^ 64 + digit)
]

-- The constructor from a text.
unfoldable pub from_text : Bytes → Outcome ℕ
unfolding entity_id
from_text text = do
  throw_if (not (length text == 16)) invalid_argument
  value ← parse_digits text 0
  entity_id value

unfoldable pub bytes : ℕ → Bytes
bytes value = put_uint 8 value

unfoldable pub from_bytes : Bytes → Outcome ℕ
unfolding entity_id
from_bytes text = do
  throw_if (not (length text == 8)) invalid_argument
  entity_id (get_loop 8 0 text).0

-- Writes the digits from the last place to the first; `out` holds those already written.
unfoldable pub str_loop : ℕ → ℕ → Bytes → Bytes
unfolding hex_char
str_loop zero value out = out
str_loop (suc i) value out = str_loop i (value / 16) (hex_char (value % 16) ∷ out)

unfoldable pub str : ℕ → Bytes
str value = str_loop 16 value []

unfoldable pub all_hex : Bytes → Bool
all_hex [] = true
all_hex (c ∷ text) = ((leb b'0' c && leb c b'9') || (leb b'a' c && leb c b'f')) && all_hex text

unfoldable pub valid_entity_id : Bytes → Bool
unfolding all_hex
valid_entity_id text =
    if not (length text == 16) || text_eq text (codes "0000000000000000")
    then false
    else all_hex text

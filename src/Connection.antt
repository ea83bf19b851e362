-- ===== src/Connection.antt =====
-- include/fsnet/connection.hpp: ConnectionRef and its key, the text that names a connection.
pub mod Decimal
pub mod Checked
pub mod Keys
pub mod Created
mod Tests
use fsnet.Base.{
  ◌∷◌, ◌++◌, suc, [], ℕ, zero, ◌+◌, ◌*◌, ◌/◌, ◌%◌, codes, Bool, true, false, not, ◌&&◌, ◌||◌, ◌==◌,
  Bytes, Option, none, some, length, take, drop, text_eq, ltb,
}
use fsnet.Base.Errors.{runtime_error, Outcome, ok, err, invalid_argument, throw_if, ◌>>◌}
use fsnet.EntityId.{hex_char, all_hex}
use fsnet.EntityRecord.{decimal_value, valid_connection_key}
use fsnet.Message.{front_is}

pub record ConnectionRef : Type 0 where
  pub id : Bytes
  pub generation : ℕ

unfoldable pub is_valid : ConnectionRef → Bool
unfolding all_hex
is_valid c = length c.id == 32 && not (c.generation == 0) && all_hex c.id

-- The decimal digits of a number that has at most `places` of them.
unfoldable pub decimal_digits : ℕ → ℕ → Bytes
decimal_digits zero value = []
decimal_digits (suc places) value = elim (ltb value 10) [
  | true ↦ (b'0' + value) ∷ []
  | false ↦ decimal_digits places (value / 10) ++ ((b'0' + value % 10) ∷ [])
]

-- `std::to_string` of a std::uint64_t, whose largest value has 20 digits
unfoldable pub to_decimal : ℕ → Bytes
to_decimal value = decimal_digits 20 value

unfoldable pub key : ConnectionRef → Outcome Bytes
unfolding is_valid to_decimal
key c =
    throw_if (not (is_valid c)) invalid_argument
    >> ok (codes "connection/" ++ (c.id ++ (b'/' ∷ to_decimal c.generation)))

-- `error==std::errc{} && end==… && value==generation`
abbrev pub is_number : Option ℕ → ℕ → Bool
is_number none generation = false
is_number (some value) generation = value == generation

unfoldable pub matches_key : ConnectionRef → Bytes → Bool
unfolding is_valid valid_connection_key text_eq decimal_value
matches_key c key =
    is_valid c
    && valid_connection_key key
    && text_eq (take 32 (drop 11 key)) c.id
    && is_number (decimal_value (drop 33 (drop 11 key)) 0) c.generation

-- What `from_key` tests after it has read the number.
unfoldable pub bad_generation : ConnectionRef → Bytes → Bool
unfolding is_valid
bad_generation c number = not (is_valid c) || (ltb 1 (length number) && front_is b'0' number)

unfoldable pub from_key : Bytes → Outcome ConnectionRef
unfolding valid_connection_key decimal_value bad_generation
from_key key =
    let rest = drop 11 key in
    (throw_if (not (valid_connection_key key)) invalid_argument
      >> (throw_if (ltb (length rest) 34 || not (front_is b'/' (drop 32 rest))) invalid_argument
          >> elim (decimal_value (drop 33 rest) 0) [
            | none ↦ err invalid_argument
            | some generation ↦
                throw_if
                  (bad_generation (record { id = take 32 rest; generation = generation })
                    (drop 33 rest))
                  invalid_argument
                >> ok (record { id = take 32 rest; generation = generation })
          ]))

-- `for(auto byte:bytes){id+=hex[byte>>4];id+=hex[byte&15];}`
unfoldable pub hex_text : Bytes → Bytes
hex_text [] = []
hex_text (byte ∷ bytes) = hex_char (byte / 16) ∷ hex_char (byte % 16) ∷ hex_text bytes

-- `random` is the answer of `RAND_bytes`: none where it fails.
unfoldable pub create : Option Bytes → Outcome ConnectionRef
unfolding hex_text
create none = err runtime_error
create (some bytes) = ok (record { id = hex_text bytes; generation = 1 })

-- ===== src/Connection/Tests.antt =====
-- A connection of include/fsnet/connection.hpp and its key.
use fsnet.Base.{[], ◌≡◌, refl, ok, err, codes, true, Bytes, ◌↔◌, arith}
use fsnet.Base.Errors.{invalid_argument}
use fsnet.Connection.{
  ConnectionRef, key, from_key, matches_key, is_valid, to_decimal, decimal_digits,
}
use fsnet.Connection.Keys.{from_key_iff, matches_key_iff}
use fsnet.EntityId.{all_hex}

abbrev session : ConnectionRef
session = record { id = codes "0123456789abcdef0123456789abcdef"; generation = 170 }

abbrev session_key : Bytes
session_key = codes "connection/0123456789abcdef0123456789abcdef/170"

session_named : key session ≡ ok session_key
unfolding key is_valid to_decimal decimal_digits all_hex
session_named = refl

-- The null reference has no key.
null_refused : key (record { id = []; generation = 0 }) ≡ err invalid_argument
unfolding key is_valid
null_refused = refl

from_key_iff_example : (from_key session_key ≡ ok session) ↔ (key session ≡ ok session_key)
from_key_iff_example = from_key_iff session session_key (omega arith)

matches_key_iff_example : (matches_key session session_key ≡ true) ↔ (key session ≡ ok session_key)
matches_key_iff_example = matches_key_iff session session_key (omega arith)

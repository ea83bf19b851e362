-- ===== src/EntityId/Tests.antt =====
-- Identities at concrete inputs.
use fsnet.Base.{◌≡◌, refl, ok, err, invalid_argument, Bytes, codes}
use fsnet.EntityId.{from_text, str, str_loop, parse_digits, hex_value}

abbrev shown : Bytes
shown = codes "00000000000001ff"

str_511 : str 511 ≡ shown
unfolding str str_loop
str_511 = refl

parsed_511 : from_text shown ≡ ok 511
unfolding from_text parse_digits hex_value
parsed_511 = refl

upper_case : from_text (codes "00000000000001FF") ≡ err invalid_argument
unfolding from_text parse_digits hex_value
upper_case = refl

-- ===== src/EntityId/Canonical.antt =====
-- The text and byte forms of an identity: each is read back, and no other text is accepted.
use fsnet.Base.{
  append-eq_of_length, ℕ, zero, suc, ◌+◌, ◌*◌, ◌-◌, ◌%◌, ◌^◌, ◌<◌, ◌≤◌, ◌≡◌, refl, sym, ap, ◌∙◌,
  ◌↔◌, ◌⊎◌, inl, inr, true, false, not, ◌&&◌, ◌||◌, leb, [], ◌∷◌, arith, some, none, ok, length,
  ◌==◌, Bytes, codes, All, text_eq, text_eq→eq, text_eq_refl, Bool-cases, >>=-eq-ok, throw_if-eq-ok,
}
use fsnet.EntityId.{
  entity_id, hex_value, parse_digits, from_text, bytes, from_bytes, str, all_hex, valid_entity_id,
  hex_char,
}
use fsnet.EntityId.Digits.{
  hex_digits, length-hex_digits, str_loop-hex_digits, parse_digits-hex_digits, parse_digits_inv,
}
use fsnet.Wire.{put_uint, get_loop}
use fsnet.Wire.RoundTrip.{get_loop-put_uint, get_loop_inv, length-put_uint}
use mathlib.Core.List.{append-nil}
use native.Mathlib.Nat.{div-eq_of_lt}

str-hex_digits : (value : ℕ) → str value ≡ hex_digits 16 value
unfolding str
str-hex_digits value = str_loop-hex_digits 16 value [] ∙ append-nil (hex_digits 16 value)

entity_id_pos : (value : ℕ) → 0 < value → entity_id value ≡ ok value
unfolding entity_id
entity_id_pos value h = ground arith

entity_id_inv : (value id : ℕ) → entity_id value ≡ ok id → (value ≡ id) × (0 < id)
unfolding entity_id
entity_id_inv value id h = ground arith

-- The constructor from a text reads back every identity that `str` printed.
pub from_text-str : (value : ℕ) → 0 < value → value < 2 ^ 64 → from_text (str value) ≡ ok value
unfolding from_text
from_text-str value pos word =
    rw
      (
        str-hex_digits value,
        length-hex_digits 16 value,
        parse_digits-hex_digits 16 value 0 word (sym (div-eq_of_lt word)),
      )
      (entity_id_pos value pos)

from_text_parts :
    (text : Bytes) (id : ℕ)
    → from_text text ≡ ok id
    → (length text ≡ 16) × (parse_digits text 0 ≡ ok id) × (0 < id)
unfolding from_text
from_text_parts text id h =
    let (size, rest) = throw_if-eq-ok (not (length text == 16)) _ _ h in
    let (value, parsed, e) = >>=-eq-ok (parse_digits text 0) entity_id rest in
    let (same, pos) = entity_id_inv value id e in (ground arith, parsed ∙ ap ok same, pos)

-- A text that the constructor accepts is the one that `str` prints of its identity, which is a
-- nonzero 64-bit number: two texts never stand for one identity.
pub str-from_text :
    (text : Bytes) (id : ℕ) → from_text text ≡ ok id → (str id ≡ text) × (0 < id) × (id < 2 ^ 64)
str-from_text text id h =
    let (size, parsed, pos) = from_text_parts text id h in
    let room : (0 + 1) * 16 ^ length text ≤ 2 ^ 64 = rw size (omega arith) in
    let (_, digits, word) = parse_digits_inv text 0 id room parsed in
    (str-hex_digits id ∙ rw size at digits, pos, word)

-- The characters that the parser gives a value to are those that `valid_entity_id` lets through.
hex_value_iff :
    (c : ℕ)
    → ((((leb b'0' c && leb c b'9') || (leb b'a' c && leb c b'f')) ≡ false) × (hex_value c ≡ none))
      ⊎ ((d : ℕ) × (((leb b'0' c && leb c b'9') || (leb b'a' c && leb c b'f')) ≡ true)
          × (hex_value c ≡ some d))
unfolding hex_value
hex_value_iff c = elim (Bool-cases (leb b'0' c && leb c b'9')) [
  | inl low ↦ rw low (inr (c - b'0', refl, refl))
  | inr e ↦ elim (Bool-cases (leb b'a' c && leb c b'f')) [
    | inl high ↦ rw (e, high) (inr (c - b'a' + 10, refl, refl))
    | inr f ↦ rw (e, f) (inl (refl, refl))
  ]
]

parse_digits-all_hex :
    (text : Bytes) (acc : ℕ)
    → all_hex text ≡ true
    → (value : ℕ) × (parse_digits text acc ≡ ok value)
unfolding parse_digits all_hex
parse_digits-all_hex [] acc h = (acc, refl)
parse_digits-all_hex (c ∷ text) acc h = elim (hex_value_iff c) [
  | inl (e, _) ↦ cc (rw (e, all_hex) at h)
  | inr (d, t, e) ↦
      let (value, r) = parse_digits-all_hex text (acc * 16 % 2 ^ 64 + d) (rw (t, all_hex) at h) in
      (value, rw (e, parse_digits) r)
]

all_hex-parse_digits :
    (text : Bytes) (acc value : ℕ) → parse_digits text acc ≡ ok value → all_hex text ≡ true
unfolding parse_digits all_hex
all_hex-parse_digits [] acc value h = refl
all_hex-parse_digits (c ∷ text) acc value h = elim (hex_value_iff c) [
  | inl (_, e) ↦ cc (rw (e, parse_digits) at h)
  | inr (d, t, e) ↦
      rw (t, all_hex)
        (all_hex-parse_digits text (acc * 16 % 2 ^ 64 + d) value (rw (e, parse_digits) at h))
]

abbrev zeros : Bytes
zeros = codes "0000000000000000"

zeros_parse : parse_digits zeros 0 ≡ ok 0
unfolding parse_digits hex_value
zeros_parse = refl

zeros_digits : hex_digits 16 0 ≡ zeros
unfolding hex_digits hex_char
zeros_digits = refl

valid_entity_id_parts :
    (text : Bytes)
    → valid_entity_id text ≡ true
    → (length text ≡ 16) × (text_eq text zeros ≡ false) × (all_hex text ≡ true)
unfolding valid_entity_id
valid_entity_id_parts text h = ground arith

from_text_accepts :
    (text : Bytes) (id : ℕ)
    → length text ≡ 16
    → parse_digits text 0 ≡ ok id
    → 0 < id
    → from_text text ≡ ok id
unfolding from_text
from_text_accepts text id size parsed pos = rw (size, parsed) (entity_id_pos id pos)

-- Only the text of zeros reads as zero.
zero_text : (text : Bytes) → length text ≡ 16 → parse_digits text 0 ≡ ok 0 → text ≡ zeros
zero_text text size parsed =
    let room : (0 + 1) * 16 ^ length text ≤ 2 ^ 64 = rw size (omega arith) in
    let (_, digits, _) = parse_digits_inv text 0 0 room parsed in
    sym (rw size at digits) ∙ zeros_digits

valid→from_text : (text : Bytes) → valid_entity_id text ≡ true → (id : ℕ) × (from_text text ≡ ok id)
valid→from_text text h =
    let (size, nonzero, hex) = valid_entity_id_parts text h in
    let (id, parsed) = parse_digits-all_hex text 0 hex in
    (id, from_text_accepts text id size parsed (positive id nonzero size parsed))
  where
    positive :
        (id : ℕ)
        → text_eq text zeros ≡ false
        → length text ≡ 16
        → parse_digits text 0 ≡ ok id
        → 0 < id
    positive zero nonzero size parsed =
        cc (rw (zero_text text size parsed) at nonzero, text_eq_refl zeros)
    positive (suc id) nonzero size parsed = omega arith

from_text→valid : (text : Bytes) (id : ℕ) → from_text text ≡ ok id → valid_entity_id text ≡ true
unfolding valid_entity_id
from_text→valid text id h =
    let (size, parsed, pos) = from_text_parts text id h in
    let hex = all_hex-parse_digits text 0 id parsed in
    elim (Bool-cases (text_eq text zeros)) [
      | inl same ↦ absurd (ground (arith, zeros_parse, text_eq→eq text zeros same))
      | inr other ↦ rw (size, other) hex
    ]

-- `valid_entity_id` is true of exactly the texts that the constructor accepts.
pub valid_entity_id_iff :
    (text : Bytes) → (valid_entity_id text ≡ true) ↔ ((id : ℕ) × (from_text text ≡ ok id))
valid_entity_id_iff text = (
  valid→from_text text,
  λ (p : (id : ℕ) × (from_text text ≡ ok id)). from_text→valid text p.0 p.1,
)

from_bytes_parts :
    (text : Bytes) (id : ℕ)
    → from_bytes text ≡ ok id
    → (length text ≡ 8) × ((get_loop 8 0 text).0 ≡ id) × (0 < id)
unfolding from_bytes
from_bytes_parts text id h =
    let (size, rest) = throw_if-eq-ok (not (length text == 8)) _ _ h in
    let (same, pos) = entity_id_inv (get_loop 8 0 text).0 id rest in (ground arith, same, pos)

-- The eight bytes of an identity are read back as that identity, and eight bytes that the decoder
-- accepts are the bytes of the identity that it returns.
pub from_bytes_iff :
    (text : Bytes) (id : ℕ)
    → All (λ b. b < 256) text
    → (from_bytes text ≡ ok id) ↔ ((text ≡ bytes id) × (0 < id) × (id < 2 ^ 64))
unfolding from_bytes bytes
from_bytes_iff text id octets =
    (decoded, λ (p : (text ≡ bytes id) × (0 < id) × (id < 2 ^ 64)). encoded p.0 p.1 p.2)
  where
    decoded : from_bytes text ≡ ok id → (text ≡ bytes id) × (0 < id) × (id < 2 ^ 64)
    decoded h =
        let (size, same, pos) = from_bytes_parts text id h in
        let (_, whole, word) = get_loop_inv 8 0 text (omega arith) (omega arith) octets in
        let number : ℕ = (get_loop 8 0 text).0 in
        let front =
          append-eq_of_length (put_uint 8 number) _ text whole
            (omega (arith, length-put_uint 8 number)) in
        (sym front ∙ ap (put_uint 8) same, pos, omega arith)

    encoded : text ≡ bytes id → 0 < id → id < 2 ^ 64 → from_bytes text ≡ ok id
    encoded e pos word =
        rw
          (
            e,
            length-put_uint 8 id,
            ← append-nil (put_uint 8 id),
            get_loop-put_uint 8 id 0 [] word (sym (div-eq_of_lt word)),
          )
          (entity_id_pos id pos)

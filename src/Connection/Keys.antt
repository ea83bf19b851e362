-- ===== src/Connection/Keys.antt =====
-- include/fsnet/connection.hpp: which keys `from_key` and `matches_key` accept.
use fsnet.Base.{
  throw_if, ◌>>◌, ◌==◌, ◌||◌, ==_refl, inr, inl, ◌&&◌, not, leb, Bool, ℕ, ◌^◌, ◌<◌, ◌≤◌, ◌≡◌, refl,
  sym, ap, ◌∙◌, ◌∷◌, ◌++◌, arith, some, none, length, Bytes, true, false, Option, take, drop, ok,
  codes, ◌↔◌,
}
use fsnet.Base.Errors.{ok-injective, invalid_argument, throw_if-eq-ok}
use fsnet.Base.Lists.{length-take, length-drop}
use fsnet.Base.Tests.{le→ltb_false, ltb, ==_iff, Option-cases}
use fsnet.Base.Texts.{text_eq→eq, text_eq_refl}
use fsnet.Connection.{
  bad_generation, is_number, ConnectionRef, key, from_key, matches_key, is_valid, to_decimal,
}
use fsnet.Connection.Checked.{
  drop_id, take_id, written-Checked, parts_of-Checked, Checked, length-rest, Checked-valid,
  valid-Checked,
}
use fsnet.Connection.Decimal.{decimal_value-decimal_digits, to_decimal-decimal_value}
use fsnet.EntityId.{all_hex}
use fsnet.EntityRecord.{is_nonzero, decimal_value, valid_connection_key}
use fsnet.Message.{front_is}
use mathlib.Core.Path.{subst, ap₂}

-- The text is a valid key with the parts of the reference.
record Parts (c : ConnectionRef) (text : Bytes) : Type 0 where
  valid : valid_connection_key text ≡ true
  id : take 32 (drop 11 text) ≡ c.id
  number : decimal_value (drop 33 (drop 11 text)) 0 ≡ some c.generation

leb→le : (a b : ℕ) → leb a b ≡ true → a ≤ b
leb→le a b h = ground arith

not-false : (b : Bool) → not b ≡ false → b ≡ true
not-false true h = refl
not-false false h = cc

from_key-Parts : (c : ConnectionRef) (text : Bytes) → from_key text ≡ ok c → Parts c text
unfolding from_key
from_key-Parts c text h =
    let (valid, h1) = throw_if-eq-ok (not (valid_connection_key text)) invalid_argument _ h in
    let (_, h2) =
      throw_if-eq-ok
        (ltb (length (drop 11 text)) 34 || not (front_is b'/' (drop 32 (drop 11 text))))
        invalid_argument _ h1 in
    elim (Option-cases (decimal_value (drop 33 (drop 11 text)) 0)) [
      | inl e ↦ absurd (cc (rw e at h2))
      | inr (n, e) ↦
          let made : ConnectionRef = record { id = take 32 (drop 11 text); generation = n } in
          let (_, h3) =
            throw_if-eq-ok (bad_generation made (drop 33 (drop 11 text))) invalid_argument (ok made)
              (rw e at h2) in
          let same : made ≡ c = ok-injective h3 in
          record {
            valid = not-false (valid_connection_key text) valid;
            id = ap (λ (d : ConnectionRef). d.id) same;
            number = e ∙ ap (λ (d : ConnectionRef). some d.generation) same;
          }
    ]

Parts-is_valid : (c : ConnectionRef) (text : Bytes) → Parts c text → is_valid c ≡ true
unfolding is_valid
Parts-is_valid c text parts =
    let k = valid-Checked text parts.valid in
    let size : length c.id ≡ 32 =
      ap length (sym parts.id)
      ∙ length-take 32 (drop 11 text)
      ∙ omega (arith, length-rest text k) in
    let positive : not (c.generation == 0) ≡ true = ap is_nonzero (sym parts.number) ∙ k.positive in
    rw (size, positive, ap all_hex (sym parts.id) ∙ k.hex) refl

and_false : (b : Bool) → (b && false) ≡ false
and_false true = refl
and_false false = refl

Parts-from_key : (c : ConnectionRef) (text : Bytes) → Parts c text → from_key text ≡ ok c
unfolding from_key
Parts-from_key c text parts =
    let k = valid-Checked text parts.valid in
    rw
      (
        parts.valid,
        parts.number,
        parts.id,
        le→ltb_false _ 34 (length-rest text k),
        k.slash,
        k.first,
        Parts-is_valid c text parts,
      )
      (ap (λ t. throw_if t invalid_argument >> (ok c))
        (and_false (ltb 1 (length (drop 33 (drop 11 text))))))

length-number : (text : Bytes) → Checked text → length (drop 33 (drop 11 text)) ≤ 20
length-number text k =
    omega
      (arith, leb→le (length text) 64 k.high, length-drop 11 text, length-drop 33 (drop 11 text))

Parts-key : (c : ConnectionRef) (text : Bytes) → Parts c text → key c ≡ ok text
unfolding key
Parts-key c text parts =
    let k = valid-Checked text parts.valid in
    let digits =
      to_decimal-decimal_value (drop 33 (drop 11 text)) c.generation k.filled k.first
        (length-number text k) parts.number in
    rw (Parts-is_valid c text parts) (
      ap ok (
        ap₂ (λ id number. codes "connection/" ++ (id ++ (b'/' ∷ number))) (sym parts.id) digits
        ∙ parts_of-Checked text k))

all_four :
    (a b c d : Bool) → (a && b && c && d) ≡ true → (a ≡ true) × (b ≡ true) × (c ≡ true) × (d ≡ true)
all_four a b c d all = ground arith

all_three : (a b c : Bool) → (a && b && c) ≡ true → (a ≡ true) × (b ≡ true) × (c ≡ true)
all_three a b c all = ground arith

valid_parts :
    (c : ConnectionRef)
    → is_valid c ≡ true
    → (length c.id ≡ 32) × (0 < c.generation) × (all_hex c.id ≡ true)
unfolding is_valid
valid_parts c h =
    let (size, positive, hex) =
      all_three (length c.id == 32) (not (c.generation == 0)) (all_hex c.id) h in
    (ground (arith, size), ground (arith, positive), hex)

key-Parts :
    (c : ConnectionRef) (text : Bytes) → c.generation < 2 ^ 64 → key c ≡ ok text → Parts c text
unfolding key
key-Parts c text word h =
    let (proper, h1) = throw_if-eq-ok (not (is_valid c)) invalid_argument _ h in
    let (size, positive, hex) = valid_parts c (not-false (is_valid c) proper) in
    subst (Parts c) (ok-injective h1) (record {
      valid = Checked-valid _ (written-Checked c.id c.generation size hex positive word);
      id = take_id c.id _ size;
      number =
          ap (λ digits. decimal_value digits 0) (drop_id c.id b'/' (to_decimal c.generation) size)
          ∙ decimal_value-decimal_digits 20 c.generation (omega arith) word;
    })

is_number-some : (read : Option ℕ) (n : ℕ) → is_number read n ≡ true → read ≡ some n
is_number-some none n h = cc
is_number-some (some v) n h = ap some ((==_iff v n).0 h)

matches_key-Parts : (c : ConnectionRef) (text : Bytes) → matches_key c text ≡ true → Parts c text
unfolding matches_key
matches_key-Parts c text h =
    let (valid, shape, same, number) = all_four _ _ _ _ h in
    record {
      valid = shape;
      id = text_eq→eq _ c.id same;
      number = is_number-some (decimal_value (drop 33 (drop 11 text)) 0) c.generation number;
    }

Parts-matches_key : (c : ConnectionRef) (text : Bytes) → Parts c text → matches_key c text ≡ true
unfolding matches_key
Parts-matches_key c text parts =
    rw
      (
        Parts-is_valid c text parts,
        parts.valid,
        parts.id,
        parts.number,
        text_eq_refl c.id,
        ==_refl c.generation,
      )
      refl

-- `from_key` returns a reference exactly for the text that `key` writes for it. The generation is a
-- std::uint64_t.
pub from_key_iff :
    (c : ConnectionRef) (text : Bytes)
    → c.generation < 2 ^ 64
    → (from_key text ≡ ok c) ↔ (key c ≡ ok text)
from_key_iff c text word = (
  λ h. Parts-key c text (from_key-Parts c text h),
  λ h. Parts-from_key c text (key-Parts c text word h),
)

-- `matches_key` accepts the text that `key` writes and no other. The generation is a std::uint64_t.
pub matches_key_iff :
    (c : ConnectionRef) (text : Bytes)
    → c.generation < 2 ^ 64
    → (matches_key c text ≡ true) ↔ (key c ≡ ok text)
matches_key_iff c text word = (
  λ h. Parts-key c text (matches_key-Parts c text h),
  λ h. Parts-matches_key c text (key-Parts c text word h),
)

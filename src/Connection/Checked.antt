-- ===== src/Connection/Checked.antt =====
-- include/fsnet/connection.hpp: what a valid key has passed, and that a written one passes.
use fsnet.Base.{
  take-append-drop, ◌&&◌, not, leb, Bool, ℕ, ◌+◌, ◌^◌, ◌<◌, ◌≤◌, ◌≡◌, sym, ap, ◌∙◌, [], ◌∷◌, ◌++◌,
  arith, length, Bytes, true, false, take, drop, codes,
}
use fsnet.Base.Lists.{length-append, drop-append_length, take-append_length, drop-suc, length-drop}
use fsnet.Base.Tests.{==_false, ==_iff}
use fsnet.Base.Texts.{starts_with-append, append-starts_with, is_empty, starts_with}
use fsnet.Connection.{decimal_digits, to_decimal}
use fsnet.Connection.Decimal.{
  decimal_value-decimal_digits, length-decimal_digits, decimal_digits-front,
}
use fsnet.EntityId.{all_hex}
use fsnet.EntityRecord.{is_nonzero, decimal_value, valid_connection_key}
use fsnet.Message.{front_is}
use mathlib.Core.Path.{subst}

-- What a valid key has passed.
pub record Checked (text : Bytes) : Type 0 where
  pub begins : starts_with text (codes "connection/") ≡ true
  pub low : leb 45 (length text) ≡ true
  pub high : leb (length text) 64 ≡ true
  pub hex : all_hex (take 32 (drop 11 text)) ≡ true
  pub slash : front_is b'/' (drop 32 (drop 11 text)) ≡ true
  pub filled : is_empty (drop 33 (drop 11 text)) ≡ false
  pub first : front_is b'0' (drop 33 (drop 11 text)) ≡ false
  pub positive : is_nonzero (decimal_value (drop 33 (drop 11 text)) 0) ≡ true

all_eight :
    (a b c d e f g h : Bool)
    → (a && b && c && d && e && not f && not g && h) ≡ true
    → (a ≡ true)
      × (b ≡ true)
      × (c ≡ true)
      × (d ≡ true)
      × (e ≡ true)
      × (f ≡ false)
      × (g ≡ false)
      × (h ≡ true)
all_eight a b c d e f g h all = ground arith

front_is-split : (c : ℕ) (text : Bytes) → front_is c text ≡ true → c ∷ drop 1 text ≡ text
front_is-split c [] h = cc
front_is-split c (x ∷ text) h = ap (λ (d : ℕ). d ∷ text) (sym ((==_iff x c).0 h))

pub valid-Checked : (text : Bytes) → valid_connection_key text ≡ true → Checked text
unfolding valid_connection_key
valid-Checked text valid =
    let (begins, low, high, hex, slash, filled, first, positive) =
      all_eight _ _ _ _ _ _ _ _ valid in
    record {
      begins = begins;
      low = low;
      high = high;
      hex = hex;
      slash = slash;
      filled = filled;
      first = first;
      positive = positive;
    }

pub length-rest : (text : Bytes) → Checked text → 34 ≤ length (drop 11 text)
length-rest text k = ground (arith, k.low, length-drop 11 text)

pub parts_of-Checked :
    (text : Bytes)
    → Checked text
    → codes "connection/" ++ (take 32 (drop 11 text) ++ (b'/' ∷ drop 33 (drop 11 text))) ≡ text
parts_of-Checked text k =
    ap (λ tail. codes "connection/" ++ (take 32 (drop 11 text) ++ tail))
      (rw (drop-suc 32 (drop 11 text)) (front_is-split b'/' (drop 32 (drop 11 text)) k.slash))
    ∙ ap (λ rest. codes "connection/" ++ rest) (take-append-drop 32 (drop 11 text))
    ∙ append-starts_with (codes "connection/") text k.begins

pub Checked-valid : (text : Bytes) → Checked text → valid_connection_key text ≡ true
unfolding valid_connection_key
Checked-valid text k = rw (k.begins, k.low, k.high, k.hex, k.slash, k.filled, k.first) k.positive

pub take_id : (id rest : Bytes) → length id ≡ 32 → take 32 (id ++ rest) ≡ id
take_id id rest size = subst (λ n. take n (id ++ rest) ≡ id) size (take-append_length id rest)

drop_front : (id rest : Bytes) → length id ≡ 32 → drop 32 (id ++ rest) ≡ rest
drop_front id rest size = subst (λ n. drop n (id ++ rest) ≡ rest) size (drop-append_length id rest)

pub drop_id :
    (id : Bytes) (c : ℕ) (rest : Bytes) → length id ≡ 32 → drop 33 (id ++ (c ∷ rest)) ≡ rest
drop_id id c rest size = drop-suc 32 (id ++ (c ∷ rest)) ∙ ap (drop 1) (drop_front id _ size)

pub written-Checked :
    (id : Bytes) (n : ℕ)
    → length id ≡ 32
    → all_hex id ≡ true
    → 0 < n
    → n < 2 ^ 64
    → Checked (codes "connection/" ++ (id ++ (b'/' ∷ to_decimal n)))
unfolding to_decimal
written-Checked id n size hex positive word =
    let (c, rest, digits, first) = decimal_digits-front 20 n positive (omega arith) in
    let number = drop_id id b'/' (decimal_digits 20 n) size in
    let long : 0 < length (decimal_digits 20 n) = omega (arith, ap length digits) in
    let whole : length (codes "connection/" ++ (id ++ (b'/' ∷ decimal_digits 20 n)))
        ≡ 44 + length (decimal_digits 20 n) =
      omega (arith, length-append id (b'/' ∷ decimal_digits 20 n), size) in
    record {
      begins = starts_with-append (codes "connection/") (id ++ (b'/' ∷ decimal_digits 20 n));
      low = ground (arith, whole, long);
      high = ground (arith, whole, length-decimal_digits 20 n);
      hex = ap all_hex (take_id id _ size) ∙ hex;
      slash = ap (front_is b'/') (drop_front id _ size);
      filled = ap is_empty (number ∙ digits);
      first = ap (front_is b'0') (number ∙ digits) ∙ ==_false c b'0' (λ e. omega (arith, e));
      positive =
          ap (λ t. is_nonzero (decimal_value t 0)) number
          ∙ ap is_nonzero (decimal_value-decimal_digits 20 n (omega arith) word)
          ∙ ground arith;
    }

-- ===== src/Connection/Decimal.antt =====
-- The decimal digits of include/fsnet/connection.hpp and what `std::from_chars` reads of them.
use fsnet.Base.{
  sym, true, ℕ, zero, suc, ◌+◌, ◌-◌, ◌*◌, ◌/◌, ◌%◌, ◌^◌, ◌<◌, ◌≤◌, ◌≡◌, refl, ap, ◌∙◌, [], ◌∷◌,
  ◌++◌, arith, some, length, Bytes, Bool-cases, inl, inr, ltb, false, length-append,
}
use fsnet.Base.Tests.{ltb_false→le}
use fsnet.Base.Texts.{is_empty}
use fsnet.Connection.{to_decimal, decimal_digits}
use fsnet.EntityRecord.{decimal_value}
use fsnet.Message.{front_is}
use mathlib.Core.List.{append_assoc, append-nil}
use mathlib.Core.Path.{ap₂}
use native.Mathlib.Nat.{pow-suc}

-- What is read of a text and one more digit.
decimal_value-append :
    (text : Bytes) (d v n : ℕ)
    → decimal_value text v ≡ some n
    → d < 10
    → n * 10 + d < 2 ^ 64
    → decimal_value (text ++ ((b'0' + d) ∷ [])) v ≡ some (n * 10 + d)
unfolding decimal_value
decimal_value-append [] d v n h hd hn = ground arith
decimal_value-append (c ∷ text) d v n h hd hn =
    ground (arith, decimal_value-append text d (v * 10 + (c - b'0')) n)

digits_one : (places n : ℕ) → ltb n 10 ≡ true → decimal_digits (suc places) n ≡ (b'0' + n) ∷ []
unfolding decimal_digits
digits_one places n one = rw (decimal_digits, one) refl

digits_more :
    (places n : ℕ)
    → ltb n 10 ≡ false
    → decimal_digits (suc places) n ≡ decimal_digits places (n / 10) ++ ((b'0' + n % 10) ∷ [])
unfolding decimal_digits
digits_more places n more = rw (decimal_digits, more) refl

tenth : (places n : ℕ) → n < 10 ^ suc places → n / 10 < 10 ^ places
tenth places n small = omega (arith, pow-suc 10 places)

-- The digits that were written are read back.
pub decimal_value-decimal_digits :
    (places n : ℕ)
    → n < 10 ^ places
    → n < 2 ^ 64
    → decimal_value (decimal_digits places n) 0 ≡ some n
unfolding decimal_digits decimal_value
decimal_value-decimal_digits zero n small word = ap some (omega arith)
decimal_value-decimal_digits (suc places) n small word = elim (Bool-cases (ltb n 10)) [
  | inl one ↦ rw (digits_one places n one) (ground arith)
  | inr more ↦
      let shorter =
        decimal_value-decimal_digits places (n / 10) (tenth places n small) (omega arith) in
      rw (digits_more places n more) (
        decimal_value-append (decimal_digits places (n / 10)) (n % 10) 0 (n / 10) shorter
          (omega arith) (omega arith)
        ∙ ap some (omega arith))
]

last_digit :
    (places v c : ℕ)
    → 0 < v
    → b'0' ≤ c
    → c ≤ b'9'
    → decimal_digits (suc places) (v * 10 + (c - b'0')) ≡ decimal_digits places v ++ (c ∷ [])
unfolding decimal_digits
last_digit places v c positive low high =
    let more : ltb (v * 10 + (c - b'0')) 10 ≡ false = ground arith in
    let front : (v * 10 + (c - b'0')) / 10 ≡ v = omega arith in
    let back : b'0' + (v * 10 + (c - b'0')) % 10 ≡ c = omega arith in
    digits_more places _ more ∙ ap₂ (λ (k d : ℕ). decimal_digits places k ++ (d ∷ [])) front back

digit_read :
    (c : ℕ) (text : Bytes) (v n : ℕ)
    → decimal_value (c ∷ text) v ≡ some n
    → (b'0' ≤ c) × (c ≤ b'9') × (decimal_value text (v * 10 + (c - b'0')) ≡ some n)
unfolding decimal_value
digit_read c text v n h = ground arith

-- Digits read after a number that is not zero extend its own.
pub decimal_digits-decimal_value :
    (text : Bytes) (places v n : ℕ)
    → 0 < v
    → decimal_value text v ≡ some n
    → decimal_digits (length text + places) n ≡ decimal_digits places v ++ text
unfolding decimal_value
decimal_digits-decimal_value [] places v n positive h =
    let same : n ≡ v = cc in
    rw (same, append-nil (decimal_digits places v)) (ap (λ k. decimal_digits k v) (omega arith))
decimal_digits-decimal_value (c ∷ text) places v n positive h =
    let (low, high, read) = digit_read c text v n h in
    let e : length (c ∷ text) + places ≡ length text + suc places = omega arith in
    rw e (
      decimal_digits-decimal_value text (suc places) (v * 10 + (c - b'0')) n (omega arith) read
      ∙ rw (last_digit places v c positive low high)
          (append_assoc (decimal_digits places v) _ text))

-- A number that is not zero has a first digit that is not zero.
pub decimal_digits-front :
    (places n : ℕ)
    → 0 < n
    → n < 10 ^ places
    → (c : ℕ) × (rest : Bytes) × (decimal_digits places n ≡ c ∷ rest) × (b'0' < c)
unfolding decimal_digits
decimal_digits-front zero n positive small = absurd (omega arith)
decimal_digits-front (suc places) n positive small = elim (Bool-cases (ltb n 10)) [
  | inl one ↦ (b'0' + n, [], digits_one places n one, omega arith)
  | inr more ↦
      let (c, rest, e, high) =
        decimal_digits-front places (n / 10) (omega (arith, ltb_false→le n 10 more))
          (tenth places n small) in
      (c, rest ++ ((b'0' + n % 10) ∷ []), digits_more places n more ∙ rw e refl, high)
]

pub length-decimal_digits : (places n : ℕ) → length (decimal_digits places n) ≤ places
unfolding decimal_digits
length-decimal_digits zero n = omega arith
length-decimal_digits (suc places) n = elim (Bool-cases (ltb n 10)) [
  | inl one ↦ omega (arith, ap length (digits_one places n one))
  | inr more ↦ omega (
    arith,
    ap length (digits_more places n more),
    length-decimal_digits places (n / 10),
    length-append (decimal_digits places (n / 10)) ((b'0' + n % 10) ∷ []),
  )
]

-- A number in a text without a leading zero has the text as its digits.
pub to_decimal-decimal_value :
    (text : Bytes) (n : ℕ)
    → is_empty text ≡ false
    → front_is b'0' text ≡ false
    → length text ≤ 20
    → decimal_value text 0 ≡ some n
    → to_decimal n ≡ text
unfolding to_decimal
to_decimal-decimal_value [] n filled first short h = cc
to_decimal-decimal_value (c ∷ text) n filled first short h =
    let (low, high, read) = digit_read c text 0 n h in
    let places : length text + suc (19 - length text) ≡ 20 = omega arith in
    let positive : 0 < 0 * 10 + (c - b'0') = ground arith in
    let digit : b'0' + (0 * 10 + (c - b'0')) ≡ c = omega arith in
    ap (λ k. decimal_digits k n) (sym places)
    ∙ decimal_digits-decimal_value text (suc (19 - length text)) (0 * 10 + (c - b'0')) n positive
        read
    ∙ ap (λ front. front ++ text) (digits_one (19 - length text) _ (ground arith))
    ∙ ap (λ (d : ℕ). d ∷ text) digit

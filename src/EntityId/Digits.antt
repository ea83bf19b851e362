-- ===== src/EntityId/Digits.antt =====
-- The digits that `EntityId::str` writes, and what the parser makes of them.
use fsnet.Base.{
  ℕ, zero, suc, ◌+◌, ◌*◌, ◌/◌, ◌%◌, ◌^◌, ◌<◌, ◌≤◌, ◌≡◌, refl, sym, ap, ◌∙◌, [], ◌∷◌, ◌++◌, arith,
  map, some, ok, length, Option-cases, inl, inr, Bytes, codes,
}
use fsnet.EntityId.{hex_char, hex_value, parse_digits, str_loop}
use native.Mathlib.Nat.{div-div-eq-div-mul, pow-suc, pow-succ', one-le-pow, div-le_self, div-one}
use mathlib.Core.Path.{ap₂}
use mathlib.Core.List.{append_assoc}

hex_char_table :
    map hex_char (0 ∷ 1 ∷ 2 ∷ 3 ∷ 4 ∷ 5 ∷ 6 ∷ 7 ∷ 8 ∷ 9 ∷ 10 ∷ 11 ∷ 12 ∷ 13 ∷ 14 ∷ 15 ∷ [])
    ≡ codes "0123456789abcdef"
unfolding hex_char
hex_char_table = refl

pub hex_value-hex_char : (d : ℕ) → d < 16 → hex_value (hex_char d) ≡ some d
unfolding hex_value hex_char
hex_value-hex_char d h = ground arith

pub hex_char-hex_value : (c d : ℕ) → hex_value c ≡ some d → (d < 16) × (hex_char d ≡ c)
unfolding hex_value hex_char
hex_char-hex_value c d h = ground arith

-- The lowest `i` hexadecimal digits of a number, highest first.
unfoldable pub hex_digits : ℕ → ℕ → Bytes
hex_digits zero value = []
hex_digits (suc i) value = hex_char (value / 16 ^ i % 16) ∷ hex_digits i value

pub div_step : (n i : ℕ) → n / 16 ^ suc i ≡ n / 16 ^ i / 16
div_step n i = ap (λ (k : ℕ). n / k) (pow-suc 16 i) ∙ sym (div-div-eq-div-mul n (16 ^ i) 16)

pub length-hex_digits : (i value : ℕ) → length (hex_digits i value) ≡ i
unfolding hex_digits
length-hex_digits zero value = refl
length-hex_digits (suc i) value = ap suc (length-hex_digits i value)

-- The last digit split off, as the loop of `str` writes it.
hex_digits_last :
    (i value : ℕ)
    → hex_digits (suc i) value ≡ hex_digits i (value / 16) ++ (hex_char (value % 16) ∷ [])
unfolding hex_digits
hex_digits_last zero value = ap (λ (k : ℕ). hex_char (k % 16) ∷ []) (div-one value)
hex_digits_last (suc i) value =
    ap₂ (λ (k : ℕ) t. hex_char (k % 16) ∷ t) high (hex_digits_last i value)
  where
    high : value / 16 ^ suc i ≡ value / 16 / 16 ^ i
    high = ap (λ (k : ℕ). value / k) (pow-succ' 16 i) ∙ sym (div-div-eq-div-mul value 16 (16 ^ i))

pub str_loop-hex_digits :
    (i value : ℕ) (out : Bytes) → str_loop i value out ≡ hex_digits i value ++ out
unfolding str_loop
str_loop-hex_digits zero value out = unfold hex_digits in refl
str_loop-hex_digits (suc i) value out =
    str_loop-hex_digits i (value / 16) (hex_char (value % 16) ∷ out)
    ∙ rw (hex_digits_last i value) (sym (append_assoc (hex_digits i (value / 16)) _ out))

-- The parser takes the digits back, once the accumulator holds the higher ones.
pub parse_digits-hex_digits :
    (i value acc : ℕ)
    → value < 2 ^ 64
    → acc ≡ value / 16 ^ i
    → parse_digits (hex_digits i value) acc ≡ ok value
unfolding parse_digits hex_digits
parse_digits-hex_digits zero value acc h e = ap ok (e ∙ div-one value)
parse_digits-hex_digits (suc i) value acc h e =
    rw (hex_value-hex_char (value / 16 ^ i % 16) (omega arith), parse_digits)
      (parse_digits-hex_digits i value (acc * 16 % 2 ^ 64 + value / 16 ^ i % 16) h
        (omega (arith, e, div_step value i, div-le_self value (16 ^ i))))

-- While the digits still fit a word: what was read is the text's own number, digit by digit.
room_step :
    (acc d p : ℕ)
    → (acc + 1) * (16 * p) ≤ 2 ^ 64
    → d < 16
    → 0 < p
    → (acc * 16 % 2 ^ 64 ≡ acc * 16) × ((acc * 16 + d + 1) * p ≤ 2 ^ 64)
room_step acc d zero h hd hp = elim hp [ ]
room_step acc d (suc q) h hd hp = (grind arith, grind arith)

pub parse_digits_inv :
    (text : Bytes) (acc value : ℕ)
    → (acc + 1) * 16 ^ length text ≤ 2 ^ 64
    → parse_digits text acc ≡ ok value
    → (value / 16 ^ length text ≡ acc) × (hex_digits (length text) value ≡ text) × (value < 2 ^ 64)
unfolding parse_digits hex_digits
parse_digits_inv [] acc value room h = (div-one value ∙ ground arith, refl, ground arith)
parse_digits_inv (c ∷ text) acc value room h = elim (Option-cases (hex_value c)) [
  | inl e ↦ cc (rw (e, parse_digits) at h)
  | inr (d, e) ↦
      let (digit, char) = hex_char-hex_value c d e in
      let (shift, fits) =
        room_step acc d (16 ^ length text) (rw (← pow-succ' 16 (length text)) room) digit
          (one-le-pow (length text) 16 (omega arith)) in
      let (high, low, word) =
        parse_digits_inv text (acc * 16 + d) value fits
          (rw (← shift) (rw (e, parse_digits) at h)) in
      (
        omega (arith, div_step value (length text)),
        ap₂ ◌∷◌ (ap hex_char (omega arith) ∙ char) low,
        word,
      )
]

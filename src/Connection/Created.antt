-- ===== src/Connection/Created.antt =====
-- The references that `ConnectionRef::create` of src/connection.cpp makes.
use fsnet.Base.{
  ◌∙◌, ◌^◌, sym, ℕ, ◌*◌, ◌/◌, ◌%◌, ◌<◌, ◌≡◌, refl, ap, [], ◌∷◌, arith, some, length, Bytes, true,
  ok, All,
}
use fsnet.Base.Errors.{ok-injective}
use fsnet.Connection.{ConnectionRef, create, hex_text, is_valid, key, from_key}
use fsnet.Connection.Keys.{from_key_iff}
use fsnet.EntityId.{hex_value, hex_char, all_hex}
use fsnet.EntityId.Digits.{hex_value-hex_char}
use mathlib.Core.Path.{ap₂}

length-hex_text : (bytes : Bytes) → length (hex_text bytes) ≡ 2 * length bytes
unfolding hex_text
length-hex_text [] = refl
length-hex_text (byte ∷ bytes) = omega (arith, length-hex_text bytes)

hex_char-all_hex :
    (digit : ℕ) (text : Bytes)
    → digit < 16
    → all_hex text ≡ true
    → all_hex (hex_char digit ∷ text) ≡ true
unfolding all_hex hex_char
hex_char-all_hex digit text small rest = ground arith

all_hex-hex_text :
    (bytes : Bytes) → All (λ byte. byte < 256) bytes → all_hex (hex_text bytes) ≡ true
unfolding hex_text all_hex
all_hex-hex_text [] small = refl
all_hex-hex_text (byte ∷ bytes) (first, small) =
    hex_char-all_hex (byte / 16) (hex_char (byte % 16) ∷ hex_text bytes) (omega arith)
      (hex_char-all_hex (byte % 16) (hex_text bytes) (omega arith) (all_hex-hex_text bytes small))

create-is_valid :
    (bytes : Bytes)
    → length bytes ≡ 16
    → All (λ byte. byte < 256) bytes
    → is_valid (record { id = hex_text bytes; generation = 1 }) ≡ true
unfolding is_valid
create-is_valid bytes size small =
    let long : length (hex_text bytes) ≡ 32 = omega (arith, length-hex_text bytes, size) in
    rw (long, all_hex-hex_text bytes small) refl

key-valid : (c : ConnectionRef) → is_valid c ≡ true → (k : Bytes) × (key c ≡ ok k)
unfolding key
key-valid c h = rw h (_, refl)

hex_char-injective : (a b : ℕ) → a < 16 → b < 16 → hex_char a ≡ hex_char b → a ≡ b
hex_char-injective a b p q e =
    let same : some a ≡ some b =
      sym (hex_value-hex_char a p) ∙ ap hex_value e ∙ hex_value-hex_char b q in
    cc

hex_text-injective :
    (xs ys : Bytes)
    → All (λ byte. byte < 256) xs
    → All (λ byte. byte < 256) ys
    → hex_text xs ≡ hex_text ys
    → xs ≡ ys
unfolding hex_text
hex_text-injective [] [] p q e = refl
hex_text-injective [] (y ∷ ys) p q e = cc
hex_text-injective (x ∷ xs) [] p q e = cc
hex_text-injective (x ∷ xs) (y ∷ ys) (p, ps) (q, qs) e =
    let high : hex_char (x / 16) ≡ hex_char (y / 16) = cc in
    let low : hex_char (x % 16) ≡ hex_char (y % 16) = cc in
    let first : x ≡ y = omega (
      arith,
      hex_char-injective (x / 16) (y / 16) (omega arith) (omega arith) high,
      hex_char-injective (x % 16) (y % 16) (omega arith) (omega arith) low,
    ) in
    ap₂ ◌∷◌ first (hex_text-injective xs ys ps qs cc)

-- From sixteen random bytes a reference with a key is made, and the key is read back.
pub create-key :
    (bytes : Bytes)
    → length bytes ≡ 16
    → All (λ byte. byte < 256) bytes
    → (c : ConnectionRef) × (k : Bytes) × (create (some bytes) ≡ ok c)
      × (key c ≡ ok k)
      × (from_key k ≡ ok c)
unfolding create
create-key bytes size small =
    let c : ConnectionRef = record { id = hex_text bytes; generation = 1 } in
    let (k, named) = key-valid c (create-is_valid bytes size small) in
    (c, k, refl, named, (from_key_iff c k (omega arith)).1 named)

-- References made from other bytes have other keys.
pub create-key_injective :
    (xs ys k : Bytes) (c d : ConnectionRef)
    → All (λ byte. byte < 256) xs
    → All (λ byte. byte < 256) ys
    → create (some xs) ≡ ok c
    → create (some ys) ≡ ok d
    → key c ≡ ok k
    → key d ≡ ok k
    → xs ≡ ys
unfolding create
create-key_injective xs ys k c d p q made other named again =
    let made_c : record { id = hex_text xs; generation = 1 } ≡ c = ok-injective made in
    let made_d : record { id = hex_text ys; generation = 1 } ≡ d = ok-injective other in
    let word_c : c.generation < 2 ^ 64 =
      omega (arith, ap (λ (e : ConnectionRef). e.generation) made_c) in
    let word_d : d.generation < 2 ^ 64 =
      omega (arith, ap (λ (e : ConnectionRef). e.generation) made_d) in
    let same : c ≡ d =
      ok-injective (sym ((from_key_iff c k word_c).1 named) ∙ (from_key_iff d k word_d).1 again) in
    hex_text-injective xs ys p q (ap (λ (e : ConnectionRef). e.id) (made_c ∙ same ∙ sym made_d))

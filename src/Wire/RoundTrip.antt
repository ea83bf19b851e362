-- ===== src/Wire/RoundTrip.antt =====
-- Readers undo writers, whatever follows in the input.
use fsnet.Base.{
  ℕ, zero, suc, ◌+◌, ◌*◌, ◌/◌, ◌%◌, ◌^◌, ◌<◌, ◌≤◌, ◌≡◌, refl, sym, ap, ◌∙◌, [], ◌∷◌, ◌++◌, arith,
  length, length-append, take-append_length, drop-append_length, Bytes, All, le→ltb_false, Error,
  ok, runtime_error,
}
use fsnet.Wire.{
  bind_ok, get_integer, put_integer, put_uint, get_loop, get_uint, put_number, get_number,
  take_text, put_blob, get_blob,
}
use native.Mathlib.Nat.{
  div-div-eq-div-mul, pow-suc, div-eq_of_lt, div-le_self, div-one, mod-eq_of_lt, pow-succ',
  one-le-pow,
}
use mathlib.Core.Path.{ap₂}
use mathlib.Core.List.{append_assoc}

pub length-put_uint : (count n : ℕ) → length (put_uint count n) ≡ count
unfolding put_uint
length-put_uint zero n = refl
length-put_uint (suc i) n = ap suc (length-put_uint i n)

pub put_uint-byte : (count n : ℕ) → All (λ b. b < 256) (put_uint count n)
unfolding put_uint
put_uint-byte zero n = tt
put_uint-byte (suc i) n = (omega arith, put_uint-byte i n)

div_step : (n i : ℕ) → n / 256 ^ suc i ≡ n / 256 ^ i / 256
div_step n i = ap (λ (k : ℕ). n / k) (pow-suc 256 i) ∙ sym (div-div-eq-div-mul n (256 ^ i) 256)

-- After some rounds the accumulator holds the digits of `n` read so far.
pub get_loop-put_uint :
    (i n acc : ℕ) (rest : Bytes)
    → n < 2 ^ 64
    → acc ≡ n / 256 ^ i
    → get_loop i acc (put_uint i n ++ rest) ≡ (n, rest)
unfolding get_loop put_uint
get_loop-put_uint zero n acc rest h e = ap (λ (k : ℕ). (k, rest)) (e ∙ div-one n)
get_loop-put_uint (suc i) n acc rest h e =
    get_loop-put_uint i n (acc * 256 % 2 ^ 64 + n / 256 ^ i % 256) rest h
      (omega (arith, e, div_step n i, div-le_self n (256 ^ i)))

room_step :
    (acc b p : ℕ)
    → (acc + 1) * (256 * p) ≤ 2 ^ 64
    → b < 256
    → 0 < p
    → (acc * 256 % 2 ^ 64 ≡ acc * 256) × ((acc * 256 + b + 1) * p ≤ 2 ^ 64)
room_step acc b zero h hb hp = elim hp [ ]
room_step acc b (suc q) h hb hp = (grind arith, grind arith)

-- What a reader of `i` bytes takes is what the writer makes of the number that it returns.
pub get_loop_inv :
    (i acc : ℕ) (input : Bytes)
    → i ≤ length input
    → (acc + 1) * 256 ^ i ≤ 2 ^ 64
    → All (λ b. b < 256) input
    → ((get_loop i acc input).0 / 256 ^ i ≡ acc)
      × (put_uint i (get_loop i acc input).0 ++ (get_loop i acc input).1 ≡ input)
      × ((get_loop i acc input).0 < 2 ^ 64)
unfolding get_loop put_uint
get_loop_inv zero acc input h room all = (div-one acc, refl, omega arith)
get_loop_inv (suc i) acc [] h room all = absurd (omega arith)
get_loop_inv (suc i) acc (b ∷ input) h room (byte, all) =
    let (shift, fits) =
      room_step acc b (256 ^ i) (rw (← pow-succ' 256 i) room) byte
        (one-le-pow i 256 (omega arith)) in
    let (high, low, word) = get_loop_inv i (acc * 256 + b) input (omega arith) fits all in
    rw (shift, get_loop)
      (
        omega (arith, div_step (get_loop i (acc * 256 + b) input).0 i),
        ap₂ ◌∷◌ (omega arith) low,
        word,
      )

-- `get` with a width reads back the number that `put` wrote with it.
pub get_uint-put_uint :
    (e : Error) (count n : ℕ) (rest : Bytes)
    → n < 256 ^ count
    → n < 2 ^ 64
    → get_uint e count (put_uint count n ++ rest) ≡ ok (n, rest)
unfolding get_uint
get_uint-put_uint e count n rest h w =
    rw
      (le→ltb_false (length (put_uint count n ++ rest)) count
        (omega (arith, length-append (put_uint count n) rest, length-put_uint count n)))
      (ap ok (get_loop-put_uint count n 0 rest w (sym (div-eq_of_lt h))))

pub take_text-append :
    (e : Error) (text rest : Bytes) → take_text e (length text) (text ++ rest) ≡ ok (text, rest)
unfolding take_text
take_text-append e text rest = rw (
  le→ltb_false (length (text ++ rest)) (length text) (omega (arith, length-append text rest)),
  take-append_length text rest,
  drop-append_length text rest,
)

-- The bytes of a field: its length in four bytes, then the field.
abbrev pub blob_bytes : Bytes → Bytes
blob_bytes text = put_number (length text) ++ text

pub put_blob_fits :
    (text out : Bytes) → put_blob text ≡ ok out → (length text < 2 ^ 32) × (out ≡ blob_bytes text)
unfolding put_blob
put_blob_fits text out h = ground arith

pub get_number-put_number :
    (n : ℕ) (rest : Bytes) → n < 2 ^ 32 → get_number (put_number n ++ rest) ≡ ok (n, rest)
get_number-put_number n rest h =
    rw (mod-eq_of_lt h) (get_uint-put_uint runtime_error 4 n rest (omega arith) (omega arith))

pub get_integer-put_integer :
    (n : ℕ) (rest : Bytes) → n < 2 ^ 64 → get_integer (put_integer n ++ rest) ≡ ok (n, rest)
get_integer-put_integer n rest h =
    get_uint-put_uint runtime_error 8 n rest (omega arith) (omega arith)

pub get_blob-blob_bytes :
    (text rest : Bytes)
    → length text < 2 ^ 32
    → get_blob (blob_bytes text ++ rest) ≡ ok (text, rest)
unfolding get_blob
get_blob-blob_bytes text rest h = rw (append_assoc (put_number (length text)) text rest) (
    bind_ok get_number (λ n. take_text runtime_error n) _ (get_number-put_number (length text) _ h)
    ∙ take_text-append runtime_error text rest)

-- `blob` reads back the field that `blob` wrote.
pub get_blob-put_blob :
    (text rest out : Bytes) → put_blob text ≡ ok out → get_blob (out ++ rest) ≡ ok (text, rest)
get_blob-put_blob text rest out h =
    let (fits, e) = put_blob_fits text out h in rw e (get_blob-blob_bytes text rest fits)

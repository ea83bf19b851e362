-- ===== src/Wire/Lengths.antt =====
-- How many bytes a reader that succeeds takes off its input.
use fsnet.Base.{
  length-drop, length-take, drop, ap, take, inr, ◌^◌, inl, ◌∙◌, ◌%◌, ltb, ◌*◌, Bool-cases, sym, ℕ,
  zero, suc, ◌+◌, ◌-◌, ◌≡◌, refl, Bool, true, false, [], ◌∷◌, arith, length, Bytes, Error, ok, err,
  Outcome,
}
use fsnet.Base.Errors.{ok-injective}
use fsnet.Base.Tests.{ltb_false→le}
use fsnet.Wire.{value_of, bind_ok, Reader, ◌>>=◌, ◌>>◌, throw_if, get_uint, get_loop, take_text}

-- Inversion of a reader that goes on after its first part.
pub bind_inv {ℓ κ} :
    {A : Type ℓ} {B : Type κ} (m : Reader A) (f : A → Reader B) (input : Bytes) {b : B}
    {rest : Bytes}
    → (m >>= f) input ≡ ok (b, rest)
    → (a : A) × (mid : Bytes) × (m input ≡ ok (a, mid)) × (f a mid ≡ ok (b, rest))
bind_inv {A = A} {B = B} m f input {b} {rest} h = by (m input) refl
  where
    by :
        (r : Outcome (A × Bytes))
        → m input ≡ r
        → (a : A) × (mid : Bytes) × (m input ≡ ok (a, mid)) × (f a mid ≡ ok (b, rest))
    by (ok (a, mid)) e = (a, mid, e, sym (bind_ok m f input e) ∙ h)
    by (err x) e = cc (rw (e, ◌>>=◌) at h)

pub guard_inv {ℓ} :
    {A : Type ℓ} (test : Bool) (e : Error) (m : Reader A) (input : Bytes) {a : A} {rest : Bytes}
    → (throw_if test e >> m) input ≡ ok (a, rest)
    → (test ≡ false) × (m input ≡ ok (a, rest))
guard_inv true e m input h = cc
guard_inv false e m input h = (refl, h)

length-get_loop :
    (count n : ℕ) (input : Bytes) → length (get_loop count n input).1 ≡ length input - count
unfolding get_loop
length-get_loop zero n input = omega arith
length-get_loop (suc i) n [] = omega arith
length-get_loop (suc i) n (b ∷ input) =
    omega (arith, length-get_loop i (n * 256 % 2 ^ 64 + b) input)

pub get_uint-length :
    (e : Error) (count : ℕ) (input : Bytes) {n : ℕ} {rest : Bytes}
    → get_uint e count input ≡ ok (n, rest)
    → length input ≡ count + length rest
unfolding get_uint
get_uint-length e count input h = elim (Bool-cases (ltb (length input) count)) [
  | inl short ↦ cc (rw short at h)
  | inr long ↦
      let same : get_loop count 0 input ≡ _ = ok-injective (rw long at h) in
      omega (
        arith,
        length-get_loop count 0 input,
        ap (λ (p : ℕ × Bytes). length p.1) same,
        ltb_false→le (length input) count long,
      )
]

pub take_text-length :
    (e : Error) (n : ℕ) (input : Bytes) {text rest : Bytes}
    → take_text e n input ≡ ok (text, rest)
    → length input ≡ length text + length rest
unfolding take_text
take_text-length e n input h = elim (Bool-cases (ltb (length input) n)) [
  | inl short ↦ cc (rw short at h)
  | inr long ↦
      let same : (take n input, drop n input) ≡ _ = ok-injective (rw long at h) in
      omega (
        arith,
        length-take n input,
        length-drop n input,
        ap (λ (p : Bytes × Bytes). length p.0) same,
        ap (λ (p : Bytes × Bytes). length p.1) same,
      )
]

-- A guard that does not throw.
pub guard_ok {ℓ} :
    {A : Type ℓ} (test : Bool) (e : Error) (m : Reader A) (input : Bytes)
    → test ≡ false
    → (throw_if test e >> m) input ≡ m input
guard_ok true e m input h = cc
guard_ok false e m input h = refl

pub value_of-eq-ok {ℓ} :
    {A : Type ℓ} (r : Outcome (A × Bytes)) {a : A}
    → value_of r ≡ ok a
    → (rest : Bytes) × (r ≡ ok (a, rest))
value_of-eq-ok (ok (b, rest)) h = (rest, cc)
value_of-eq-ok (err e) h = cc

-- ===== src/Wire/Reads.antt =====
-- A reader that takes exactly the bytes `out` off any input that begins with them.
use fsnet.Base.{
  err, ◌∷◌, Option, none, some, ℕ, ◌≡◌, refl, ◌∙◌, Bool, true, false, [], ◌++◌, Bytes, ok, Error,
  ◌<◌, ◌^◌, length,
}
use fsnet.Base.Errors.{Outcome}
use fsnet.Wire.{
  flag, get_flag, call, put_blob, put_uint, get_uint, take_text, take_rest, get_byte, or_throw,
  Reader, pure, ◌>>=◌, ◌>>◌, bind_ok, throw_if, get_number, put_number, get_integer, put_integer,
  get_blob,
}
use fsnet.Wire.RoundTrip.{
  get_blob-put_blob, get_uint-put_uint, take_text-append, get_number-put_number,
  get_integer-put_integer, blob_bytes, get_blob-blob_bytes,
}
use mathlib.Core.List.{append_assoc, append-nil}

pub record Reads {ℓ} {A : Type ℓ} (m : Reader A) (out : Bytes) (a : A) : Type ℓ where
  pub at : (rest : Bytes) → m (out ++ rest) ≡ ok (a, rest)

module _ {ℓ} {A : Type ℓ} where
  pub Reads-pure : (a : A) → Reads (pure a) [] a
  Reads-pure a = record { at = λ rest. refl }

  pub Reads-or_throw : (o : Option A) (e : Error) (a : A) → o ≡ some a → Reads (or_throw o e) [] a
  Reads-or_throw none e a h = cc
  Reads-or_throw (some b) e a h = record { at = λ rest. cc }

  -- `if(test) throw …;` that does not throw
  pub Reads-guard :
      (test : Bool) (e : Error) (m : Reader A) (out : Bytes) (a : A)
      → test ≡ false
      → Reads m out a
      → Reads (throw_if test e >> m) out a
  Reads-guard false e m out a h r = record { at = r.at }
  Reads-guard true e m out a h r = cc

module _ {ℓ κ} {A : Type ℓ} {B : Type κ} where
  pub Reads-bind :
      (m : Reader A) (f : A → Reader B) (out more : Bytes) (a : A) (b : B)
      → Reads m out a
      → Reads (f a) more b
      → Reads (m >>= f) (out ++ more) b
  Reads-bind m f out more a b r s = record {
    at = λ rest.
        rw (append_assoc out more rest)
          (bind_ok m f (out ++ (more ++ rest)) (r.at (more ++ rest)) ∙ s.at rest);
  }

  -- a last part after which no bytes are read
  pub Reads-end :
      (m : Reader A) (f : A → Reader B) (out : Bytes) (a : A) (b : B)
      → Reads m out a
      → Reads (f a) [] b
      → Reads (m >>= f) out b
  Reads-end m f out a b r s = record {
    at = λ rest. bind_ok m f (out ++ rest) (r.at rest) ∙ s.at rest;
  }

pub Reads-number : (n : ℕ) → n < 2 ^ 32 → Reads get_number (put_number n) n
Reads-number n h = record { at = λ rest. get_number-put_number n rest h }

pub Reads-integer : (n : ℕ) → n < 2 ^ 64 → Reads get_integer (put_integer n) n
Reads-integer n h = record { at = λ rest. get_integer-put_integer n rest h }

pub Reads-blob : (text : Bytes) → length text < 2 ^ 32 → Reads get_blob (blob_bytes text) text
Reads-blob text h = record { at = λ rest. get_blob-blob_bytes text rest h }

-- A reader that takes the whole of `out`.
pub record ReadsAll {ℓ} {A : Type ℓ} (m : Reader A) (out : Bytes) (a : A) : Type ℓ where
  pub at : m out ≡ ok (a, [])

module _ {ℓ} {A : Type ℓ} where
  pub ReadsAll-guard :
      (test : Bool) (e : Error) (m : Reader A) (out : Bytes) (a : A)
      → test ≡ false
      → ReadsAll m out a
      → ReadsAll (throw_if test e >> m) out a
  ReadsAll-guard false e m out a h r = record { at = r.at }
  ReadsAll-guard true e m out a h r = cc

module _ {ℓ κ} {A : Type ℓ} {B : Type κ} where
  pub ReadsAll-bind :
      (m : Reader A) (f : A → Reader B) (out more : Bytes) (a : A) (b : B)
      → Reads m out a
      → ReadsAll (f a) more b
      → ReadsAll (m >>= f) (out ++ more) b
  ReadsAll-bind m f out more a b r s = record { at = bind_ok m f (out ++ more) (r.at more) ∙ s.at }

  -- the last part, after which the input must be used up
  pub ReadsAll-last :
      (m : Reader A) (f : A → Reader B) (out : Bytes) (a : A) (b : B)
      → Reads m out a
      → f a [] ≡ ok (b, [])
      → ReadsAll (m >>= f) out b
  ReadsAll-last m f out a b r e = record {
    at = bind_ok m f out (rw (append-nil out) at (r.at [])) ∙ e;
  }

pub Reads-byte : (e : Error) (b : ℕ) → Reads (get_byte e) (b ∷ []) b
unfolding get_byte
Reads-byte e b = record { at = λ rest. refl }

pub ReadsAll-rest : (out : Bytes) → ReadsAll take_rest out out
ReadsAll-rest out = record { at = refl }

pub Reads-text : (e : Error) (text : Bytes) → Reads (take_text e (length text)) text text
Reads-text e text = record { at = take_text-append e text }

-- an integer of `count` bytes that fits them and a std::uint64_t
pub Reads-uint :
    (e : Error) (count n : ℕ)
    → n < 256 ^ count
    → n < 2 ^ 64
    → Reads (get_uint e count) (put_uint count n) n
Reads-uint e count n h w = record { at = λ rest. get_uint-put_uint e count n rest h w }

pub Reads-put_blob : (text out : Bytes) → put_blob text ≡ ok out → Reads get_blob out text
Reads-put_blob text out h = record { at = λ rest. get_blob-put_blob text rest out h }

module _ {ℓ} {A : Type ℓ} where
  pub Reads-call : (o : Outcome A) (a : A) → o ≡ ok a → Reads (call o) [] a
  Reads-call (ok b) a h = record { at = λ rest. cc }
  Reads-call (err e) a h = cc

pub Reads-flag : (e : Error) (b : Bool) → Reads (get_flag e) (flag b ∷ []) b
unfolding get_flag
Reads-flag e true = record { at = λ rest. refl }
Reads-flag e false = record { at = λ rest. refl }

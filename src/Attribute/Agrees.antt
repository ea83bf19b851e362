-- ===== src/Attribute/Agrees.antt =====
-- The two outputs of the templates of src/attribute_wire.cpp: SizeOnly counts the bytes that
-- std::string holds. Writers that agree, and how they are composed.
use fsnet.Base.{
  ◌-◌, ◌+◌, ℕ, ok, err, true, false, ltb, ◌||◌, ◌==◌, ap, sym, length, ◌≡◌, refl, Bool, Bytes, ◌++◌,
  length-append,
}
use fsnet.Base.Errors.{Outcome, Error, ◌>>=◌, ◌>>◌, throw_if, length_error}
use fsnet.Attribute.{AttributeValue, index, size_limit}
use fsnet.Attribute.Encode.{text_output, size_output, write, write_name, within_limit, begin_value}
use fsnet.Wire.{put_uint}
use mathlib.Core.Path.{subst}

abbrev pub count : Bytes × ℕ → ℕ × ℕ
count s = (length s.0, s.1)

-- What a writer of a text returned, with the text's length in the place of the text.
abbrev pub counted : Outcome (Bytes × ℕ) → Outcome (ℕ × ℕ)
counted (ok t) = ok (count t)
counted (err e) = err e

pub record Agrees (f : Bytes × ℕ → Outcome (Bytes × ℕ)) (g : ℕ × ℕ → Outcome (ℕ × ℕ)) : Type 0 where
  pub at : (s : Bytes × ℕ) → g (count s) ≡ counted (f s)

pub Agrees-ok : Agrees (λ s. ok s) (λ s. ok s)
Agrees-ok = record { at = λ s. refl }

module _ (f : Bytes × ℕ → Outcome (Bytes × ℕ)) (g : ℕ × ℕ → Outcome (ℕ × ℕ)) (h : Agrees f g) where
  pub Agrees-write :
      (bytes : Bytes)
      → Agrees (λ s. f (write text_output bytes s)) (λ s. g (write size_output bytes s))
  Agrees-write bytes = record {
    at = λ s.
        subst (λ (n : ℕ). g (n, s.1) ≡ counted (f (write text_output bytes s)))
          (length-append s.0 bytes) (h.at (write text_output bytes s));
  }

  pub Agrees-guard :
      (test : Bool) (e : Error) → Agrees (λ s. throw_if test e >> f s) (λ s. throw_if test e >> g s)
  Agrees-guard true e = record { at = λ s. refl }
  Agrees-guard false e = record { at = h.at }

  pub Agrees-bind :
      (k : Bytes × ℕ → Outcome (Bytes × ℕ)) (l : ℕ × ℕ → Outcome (ℕ × ℕ))
      → Agrees k l
      → Agrees (λ s. f s >>= k) (λ s. g s >>= l)
  Agrees-bind k l r = record { at = λ s. rw (h.at s) (go (f s)) }
    where
      go : (x : Outcome (Bytes × ℕ)) → (counted x >>= l) ≡ counted (x >>= k)
      go (ok t) = r.at t
      go (err e) = refl

pub Agrees-limit : Agrees (within_limit text_output) (within_limit size_output)
Agrees-limit = record { at = λ s. go s (ltb size_limit (length s.0)) }
  where
    go :
        (s : Bytes × ℕ) (test : Bool)
        → (throw_if test length_error >> ok (count s))
          ≡ counted (throw_if test length_error >> ok s)
    go s true = refl
    go s false = refl

pub Agrees-begin :
    (depth : ℕ) (value : AttributeValue)
    → Agrees (begin_value text_output depth value) (begin_value size_output depth value)
Agrees-begin depth value = record { at = λ s. go s (ltb 8 depth || s.1 == 0) }
  where
    go :
        (s : Bytes × ℕ) (test : Bool)
        → (throw_if test length_error
            >> ok (length s.0 + length (put_uint 1 (index value)), s.1 - 1))
          ≡ counted (throw_if test length_error >> ok (s.0 ++ put_uint 1 (index value), s.1 - 1))
    go s true = refl
    go s false =
        ap (λ (n : ℕ). ok (n, s.1 - 1)) (sym (length-append s.0 (put_uint 1 (index value))))

-- `put(out, name.size(), 1); out += name;`
pub Agrees-name :
    (f : Bytes × ℕ → Outcome (Bytes × ℕ)) (g : ℕ × ℕ → Outcome (ℕ × ℕ)) (name : Bytes)
    → Agrees f g
    → Agrees (λ s. f (write_name text_output name s)) (λ s. g (write_name size_output name s))
Agrees-name f g name h =
    Agrees-write (λ s. f (write text_output name s)) (λ s. g (write size_output name s))
      (Agrees-write f g h name) (put_uint 1 (length name))

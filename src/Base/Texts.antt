-- ===== src/Base/Texts.antt =====
-- std::string and std::string_view as lists of byte values: comparison, search and prefixes.
use mathlib.Core.Logic.{inr}
use mathlib.Core.Logic.{inl}
use fsnet.Base.Tests.{Bool-cases}
use fsnet.Base.Lists.{length, drop}
use Prim.Native.Nat.{◌<◌}
use Prim.Native.Nat.{ℕ}
use Prim.Native.Char.{code}
use Prim.Native.String.{String}
use mathlib.Core.Path.{◌≡◌, refl, sym, ap₂}
use mathlib.Core.Logic.{◌↔◌}
use mathlib.Core.Bool.{Bool, true, false, ◌&&◌, ◌||◌}
use mathlib.Core.List.{List, [], ◌∷◌, ◌++◌}
use native.Mathlib.Omega.{arith}
use fsnet.Base.Tests.{ltb, ◌==◌, and_true, ==_iff}

abbrev pub Bytes : Type 0
Bytes = List ℕ

-- The bytes of an ASCII literal. `String` has its own `[]` and `∷`.
abbrev pub codes : String → Bytes
codes String.[] = []
codes (String.◌∷◌ c s) = code c ∷ codes s

-- `operator==`
unfoldable pub text_eq : Bytes → Bytes → Bool
text_eq [] [] = true
text_eq [] (y ∷ ys) = false
text_eq (x ∷ xs) [] = false
text_eq (x ∷ xs) (y ∷ ys) = x == y && text_eq xs ys

-- `operator<`, the order of `std::map`'s keys
unfoldable pub text_lt : Bytes → Bytes → Bool
text_lt [] [] = false
text_lt [] (y ∷ ys) = true
text_lt (x ∷ xs) [] = false
text_lt (x ∷ xs) (y ∷ ys) = ltb x y || (x == y && text_lt xs ys)

-- `text.find(byte) != npos`
unfoldable pub contains_byte : ℕ → Bytes → Bool
contains_byte c [] = false
contains_byte c (x ∷ xs) = x == c || contains_byte c xs

abbrev pub is_empty {ℓ} : {A : Type ℓ} → List A → Bool
is_empty [] = true
is_empty (x ∷ xs) = false

pub text_eq→eq : (xs ys : Bytes) → text_eq xs ys ≡ true → xs ≡ ys
unfolding text_eq
text_eq→eq [] [] h = refl
text_eq→eq [] (y ∷ ys) h = cc
text_eq→eq (x ∷ xs) [] h = cc
text_eq→eq (x ∷ xs) (y ∷ ys) h = ground (arith, text_eq→eq xs ys)

pub text_eq-false : (xs ys : Bytes) → ¬ (xs ≡ ys) → text_eq xs ys ≡ false
text_eq-false xs ys differ = elim (Bool-cases (text_eq xs ys)) [
  | inl same ↦ absurd (differ (text_eq→eq xs ys same))
  | inr other ↦ other
]

pub text_eq_refl : (xs : Bytes) → text_eq xs xs ≡ true
unfolding text_eq
text_eq_refl [] = refl
text_eq_refl (x ∷ xs) = ground (arith, text_eq_refl xs)

pub text_eq_iff : (xs ys : Bytes) → (text_eq xs ys ≡ true) ↔ (xs ≡ ys)
text_eq_iff xs ys = (text_eq→eq xs ys, λ e. rw e (text_eq_refl ys))

pub text_lt_irrefl : (xs : Bytes) → text_lt xs xs ≡ false
unfolding text_lt
text_lt_irrefl [] = refl
text_lt_irrefl (x ∷ xs) = ground (arith, text_lt_irrefl xs)

pub text_lt_trans :
    (xs ys zs : Bytes) → text_lt xs ys ≡ true → text_lt ys zs ≡ true → text_lt xs zs ≡ true
unfolding text_lt
text_lt_trans [] [] zs p q = cc
text_lt_trans [] (y ∷ ys) [] p q = cc
text_lt_trans [] (y ∷ ys) (z ∷ zs) p q = refl
text_lt_trans (x ∷ xs) [] zs p q = cc
text_lt_trans (x ∷ xs) (y ∷ ys) [] p q = cc
text_lt_trans (x ∷ xs) (y ∷ ys) (z ∷ zs) p q = ground (arith, text_lt_trans xs ys zs)

-- The order is total.
pub text_lt_total :
    (xs ys : Bytes) → text_lt xs ys ≡ false → text_eq xs ys ≡ false → text_lt ys xs ≡ true
unfolding text_lt text_eq
text_lt_total [] [] p q = cc
text_lt_total [] (y ∷ ys) p q = cc
text_lt_total (x ∷ xs) [] p q = refl
text_lt_total (x ∷ xs) (y ∷ ys) p q = ground (arith, text_lt_total xs ys)

-- `text.starts_with(prefix)`
unfoldable pub starts_with : Bytes → Bytes → Bool
starts_with text [] = true
starts_with [] (y ∷ prefix) = false
starts_with (x ∷ text) (y ∷ prefix) = x == y && starts_with text prefix

pub starts_with-append : (prefix rest : Bytes) → starts_with (prefix ++ rest) prefix ≡ true
unfolding starts_with
starts_with-append [] rest = refl
starts_with-append (x ∷ prefix) rest = ground (arith, starts_with-append prefix rest)

pub append-starts_with :
    (prefix text : Bytes)
    → starts_with text prefix ≡ true
    → prefix ++ drop (length prefix) text ≡ text
unfolding starts_with
append-starts_with [] text h = refl
append-starts_with (y ∷ prefix) [] h = cc
append-starts_with (y ∷ prefix) (x ∷ text) h =
    let (same, rest) = and_true (x == y) _ h in
    ap₂ ◌∷◌ (sym ((==_iff x y).0 same)) (append-starts_with prefix text rest)

pub length-is_empty : (text : Bytes) → is_empty text ≡ false → 0 < length text
length-is_empty [] h = cc
length-is_empty (c ∷ text) h = omega arith

pub is_empty-length : (text : Bytes) → is_empty text ≡ true → length text ≡ 0
is_empty-length [] h = refl
is_empty-length (c ∷ text) h = cc

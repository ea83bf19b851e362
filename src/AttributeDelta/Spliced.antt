-- ===== src/AttributeDelta/Spliced.antt =====
-- The splice that src/attribute_wire.cpp writes for an array gives, where it is applied, the new array.
use fsnet.Base.{
  ap, inr, refl, sym, ◌∙◌, ◌⊎◌, length, arith, ◌≤◌, inl, ◌≡◌, ℕ, ◌+◌, ◌-◌, suc, true, false, [],
  ◌∷◌, ◌++◌, Bool, take,
}
use fsnet.Base.Lists.{
  drop_after, length-take, take-append_length, take-append-drop, length-drop, drop,
}
use fsnet.Attribute.{AttributeArray}
use fsnet.Attribute.Equality.{value_eq}
use fsnet.AttributeDelta.{common_prefix, common_suffix, reversed}
use mathlib.Core.List.{append-nil, append_assoc}

-- Arrays of one size whose elements are the same, or equal by `==`.
abbrev pub Follows : AttributeArray → AttributeArray → Type 0
Follows [] [] = Unit
Follows [] (y ∷ ys) = ⊥
Follows (x ∷ xs) [] = ⊥
Follows (x ∷ xs) (y ∷ ys) = ((x ≡ y) ⊎ (value_eq x y ≡ true)) × Follows xs ys

Follows-refl : (xs : AttributeArray) → Follows xs xs
Follows-refl [] = tt
Follows-refl (x ∷ xs) = (inl refl, Follows-refl xs)

Follows-append :
    (xs ys more others : AttributeArray)
    → Follows xs ys
    → Follows more others
    → Follows (xs ++ more) (ys ++ others)
Follows-append [] [] more others f g = g
Follows-append [] (y ∷ ys) more others f g = elim f [ ]
Follows-append (x ∷ xs) [] more others f g = elim f [ ]
Follows-append (x ∷ xs) (y ∷ ys) more others f g = (f.0, Follows-append xs ys more others f.1 g)

Follows-reversed :
    (xs ys out others : AttributeArray)
    → Follows xs ys
    → Follows out others
    → Follows (reversed xs out) (reversed ys others)
unfolding reversed
Follows-reversed [] [] out others f g = g
Follows-reversed [] (y ∷ ys) out others f g = elim f [ ]
Follows-reversed (x ∷ xs) [] out others f g = elim f [ ]
Follows-reversed (x ∷ xs) (y ∷ ys) out others f g =
    Follows-reversed xs ys (x ∷ out) (y ∷ others) f.1 (f.0, g)

-- What `common_prefix` counts.
pub record Prefix (before after : AttributeArray) (n : ℕ) : Type 0 where
  pub left : n ≤ length before
  pub right : n ≤ length after
  pub same : Follows (take n before) (take n after)

pub common_prefix-Prefix :
    (before after : AttributeArray) → Prefix before after (common_prefix before after)
unfolding common_prefix
common_prefix-Prefix [] after = record { left = omega arith; right = omega arith; same = tt }
common_prefix-Prefix (x ∷ before) [] = record { left = omega arith; right = omega arith; same = tt }
common_prefix-Prefix (x ∷ before) (y ∷ after) =
    by (value_eq x y) refl (common_prefix-Prefix before after)
  where
    by :
        (equal : Bool)
        → value_eq x y ≡ equal
        → Prefix before after (common_prefix before after)
        → Prefix
            (x ∷ before)
            (y ∷ after)
            (elim equal [ true ↦ suc (common_prefix before after) | false ↦ 0 ])
    by true e p = record {
      left = omega (arith, p.left);
      right = omega (arith, p.right);
      same = (inr e, p.same);
    }
    by false e p = record { left = omega arith; right = omega arith; same = tt }

reversed-append :
    (xs ys out : AttributeArray) → reversed (xs ++ ys) out ≡ reversed ys (reversed xs out)
unfolding reversed
reversed-append [] ys out = refl
reversed-append (x ∷ xs) ys out = reversed-append xs ys (x ∷ out)

reversed_out : (xs out : AttributeArray) → reversed xs out ≡ reversed xs [] ++ out
unfolding reversed
reversed_out [] out = refl
reversed_out (x ∷ xs) out =
    reversed_out xs (x ∷ out)
    ∙ sym (append_assoc (reversed xs []) (x ∷ []) out)
    ∙ ap (λ (l : AttributeArray). l ++ out) (sym (reversed_out xs (x ∷ [])))

reversed_twice : (xs out : AttributeArray) → reversed (reversed xs out) [] ≡ reversed out [] ++ xs
unfolding reversed
reversed_twice [] out = sym (append-nil (reversed out []))
reversed_twice (x ∷ xs) out =
    reversed_twice xs (x ∷ out)
    ∙ ap (λ (l : AttributeArray). l ++ xs) (reversed_out out (x ∷ []))
    ∙ append_assoc (reversed out []) (x ∷ []) xs

length-reversed : (xs out : AttributeArray) → length (reversed xs out) ≡ length xs + length out
unfolding reversed
length-reversed [] out = omega arith
length-reversed (x ∷ xs) out = omega (arith, length-reversed xs (x ∷ out))

-- The last elements, turned around, are the first ones of the array turned around.
take-reversed :
    (n : ℕ) (xs : AttributeArray)
    → n ≤ length xs
    → take n (reversed xs []) ≡ reversed (drop (length xs - n) xs) []
take-reversed n xs small =
    let u = take (length xs - n) xs in
    let v = drop (length xs - n) xs in
    let size : length (reversed v []) ≡ n =
      omega (arith, small, length-reversed v [], length-drop (length xs - n) xs) in
    let whole : reversed xs [] ≡ reversed v [] ++ reversed u [] =
      ap (λ (l : AttributeArray). reversed l []) (sym (take-append-drop (length xs - n) xs))
      ∙ reversed-append u v []
      ∙ reversed_out v (reversed u []) in
    ap (λ (l : AttributeArray). take n l) whole
    ∙ ap (λ (k : ℕ). take k (reversed v [] ++ reversed u [])) (sym size)
    ∙ take-append_length (reversed v []) (reversed u [])

-- What the loop over `suffix` counts.
pub record Suffix (before after : AttributeArray) (n : ℕ) : Type 0 where
  pub left : n ≤ length before
  pub right : n ≤ length after
  pub same : Follows (drop (length before - n) before) (drop (length after - n) after)

pub suffix-Suffix :
    (before after : AttributeArray)
    → Suffix before after (common_prefix (reversed before []) (reversed after []))
unfolding reversed
suffix-Suffix before after =
    let n = common_prefix (reversed before []) (reversed after []) in
    let p = common_prefix-Prefix (reversed before []) (reversed after []) in
    let left : n ≤ length before = omega (arith, p.left, length-reversed before []) in
    let right : n ≤ length after = omega (arith, p.right, length-reversed after []) in
    let x = drop (length before - n) before in
    let y = drop (length after - n) after in
    let turned : Follows (reversed x []) (reversed y []) =
      rw (take-reversed n before left, take-reversed n after right) at p.same in
    record {
      left = left;
      right = right;
      same =
          rw (reversed_twice x [], reversed_twice y []) at
            (Follows-reversed (reversed x []) (reversed y []) [] [] turned tt);
    }

-- What the splice makes of the old array.
abbrev pub spliced : AttributeArray → AttributeArray → AttributeArray
spliced before after =
    let p = common_prefix before after in
    let s = common_suffix p before after in
    take p before
    ++ (take (length after - p - s) (drop p after) ++ drop (p + (length before - p - s)) before)

drop_both : (m n : ℕ) (xs : AttributeArray) → m ≤ length xs → drop (m + n) xs ≡ drop n (drop m xs)
drop_both m n xs small =
    let size : length (take m xs) ≡ m = omega (arith, small, length-take m xs) in
    ap (λ (k : ℕ). drop (k + n) xs) (sym size)
    ∙ ap (λ (l : AttributeArray). drop (length (take m xs) + n) l) (sym (take-append-drop m xs))
    ∙ drop_after (take m xs) (drop m xs) n

pub spliced-Follows : (before after : AttributeArray) → Follows (spliced before after) after
unfolding common_suffix
spliced-Follows before after =
    let p = common_prefix before after in
    let s = common_suffix p before after in
    let x = drop p before in
    let y = drop p after in
    let f = common_prefix-Prefix before after in
    let l = suffix-Suffix x y in
    let old : drop (p + (length before - p - s)) before ≡ drop (length x - s) x =
      drop_both p (length before - p - s) before f.left
      ∙ ap (λ (k : ℕ). drop k x) (omega (arith, length-drop p before)) in
    let new : take (length after - p - s) y ≡ take (length y - s) y =
      ap (λ (k : ℕ). take k y) (omega (arith, length-drop p after)) in
    let middle : Follows (take (length y - s) y ++ drop (length x - s) x) y =
      rw (take-append-drop (length y - s) y) at (
        Follows-append (take (length y - s) y) (take (length y - s) y) _ _
          (Follows-refl (take (length y - s) y)) l.same) in
    rw (old, new)
      (rw (take-append-drop p after) at
        (Follows-append (take p before) (take p after) _ y f.same middle))

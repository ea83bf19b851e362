-- ===== src/Base/Maps.antt =====
-- std::map and std::unordered_map with text keys, as an association list in key order.
use fsnet.Base.Tests.{if◌then◌else◌, is_some}
use fsnet.Base.Texts.{
  Bytes, text_eq, text_lt, text_eq→eq, text_eq_refl, text_lt_irrefl, text_lt_trans, text_lt_total,
}
use mathlib.Core.Path.{◌≡◌, refl}
use mathlib.Core.Bool.{true}
use mathlib.Core.Option.{Option, none, some}
use mathlib.Core.List.{List, [], ◌∷◌, ◌++◌}
use native.Mathlib.Omega.{arith}

abbrev pub Map {ℓ} : Type ℓ → Type ℓ
Map V = List (Bytes × V)

module _ {ℓ} {V : Type ℓ} where
  unfoldable pub find : Bytes → Map V → Option V
  find k [] = none
  find k ((j, v) ∷ m) = if text_eq j k then some v else find k m

  unfoldable pub insert_or_assign : Bytes → V → Map V → Map V
  insert_or_assign k v [] = (k, v) ∷ []
  insert_or_assign k v ((j, w) ∷ m) =
      if text_eq j k
      then (j, v) ∷ m
      else if text_lt k j
      then (k, v) ∷ (j, w) ∷ m
      else (j, w) ∷ insert_or_assign k v m

  -- `none` where `emplace(k, v).second` is false: the key is there already.
  unfoldable pub emplace : Bytes → V → Map V → Option (Map V)
  unfolding find insert_or_assign
  emplace k v m = if is_some (find k m) then none else some (insert_or_assign k v m)

  unfoldable pub erase : Bytes → Map V → Map V
  erase k [] = []
  erase k ((j, w) ∷ m) = if text_eq j k then m else (j, w) ∷ erase k m

  -- The keys ascend strictly, from above `k`.
  abbrev pub Above : Bytes → Map V → Type 0
  Above k [] = Unit
  Above k ((j, v) ∷ m) = (text_lt k j ≡ true) × Above j m

  abbrev pub IsSorted : Map V → Type 0
  IsSorted [] = Unit
  IsSorted ((j, v) ∷ m) = Above j m

  pub find-insert_or_assign :
      (j k : Bytes) (v : V) (m : Map V)
      → find j (insert_or_assign k v m) ≡ (if text_eq k j then some v else find j m)
  unfolding find insert_or_assign
  find-insert_or_assign j k v [] = refl
  find-insert_or_assign j k v ((i, w) ∷ m) = ground (
    arith,
    text_eq→eq i k,
    text_eq→eq k j,
    text_eq→eq i j,
    text_eq_refl j,
    text_eq_refl k,
    find-insert_or_assign j k v m,
  )

  pub Above-text_lt : (i j : Bytes) (m : Map V) → text_lt i j ≡ true → Above j m → Above i m
  Above-text_lt i j [] h a = tt
  Above-text_lt i j ((k, v) ∷ m) h a = (text_lt_trans i j k h a.0, a.1)

  pub find_below : (k : Bytes) (m : Map V) → Above k m → find k m ≡ none
  unfolding find
  find_below k [] a = refl
  find_below k ((j, v) ∷ m) a =
      ground (arith, text_eq→eq j k, text_lt_irrefl k, find_below k m (Above-text_lt k j m a.0 a.1))

  pub find-erase :
      (j k : Bytes) (m : Map V)
      → IsSorted m
      → find j (erase k m) ≡ (if text_eq k j then none else find j m)
  unfolding find erase
  find-erase j k [] s = ground arith
  find-erase j k ((i, w) ∷ []) s =
      ground (arith, text_eq→eq i k, text_eq→eq k j, text_eq→eq i j, text_eq_refl j)
  find-erase j k ((i, w) ∷ (n, u) ∷ m) s = ground (
    arith,
    text_eq→eq i k,
    text_eq→eq k j,
    text_eq→eq i j,
    text_eq_refl j,
    find_below i ((n, u) ∷ m) s,
    find-erase j k ((n, u) ∷ m) s.1,
  )

  insert_or_assign-Above :
      (i k : Bytes) (v : V) (m : Map V)
      → text_lt i k ≡ true
      → Above i m
      → Above i (insert_or_assign k v m)
  unfolding insert_or_assign
  insert_or_assign-Above i k v [] h a = (h, tt)
  insert_or_assign-Above i k v ((j, w) ∷ m) h a =
      ground
        (arith, text_lt_total k j, text_eq→eq k j, text_eq_refl j, insert_or_assign-Above j k v m)

  pub insert_or_assign-IsSorted :
      (k : Bytes) (v : V) (m : Map V) → IsSorted m → IsSorted (insert_or_assign k v m)
  unfolding insert_or_assign
  insert_or_assign-IsSorted k v [] s = tt
  insert_or_assign-IsSorted k v ((j, w) ∷ m) s =
      ground
        (arith, text_lt_total k j, text_eq→eq k j, text_eq_refl j, insert_or_assign-Above j k v m)

  erase-Above : (i k : Bytes) (m : Map V) → Above i m → Above i (erase k m)
  unfolding erase
  erase-Above i k [] a = tt
  erase-Above i k ((j, w) ∷ m) a = ground (arith, Above-text_lt i j m, erase-Above j k m)

  pub erase-IsSorted : (k : Bytes) (m : Map V) → IsSorted m → IsSorted (erase k m)
  unfolding erase
  erase-IsSorted k [] s = tt
  erase-IsSorted k ((j, w) ∷ []) s = ground arith
  erase-IsSorted k ((j, w) ∷ (i, u) ∷ m) s = ground (arith, erase-Above j k ((i, u) ∷ m) s)

  -- A key above all others goes to the end: what a decoder does with entries in key order.
  emplace_last-Above :
      (i k : Bytes) (v : V) (m rest : Map V)
      → Above i (m ++ ((k, v) ∷ rest))
      → (find k m ≡ none) × (insert_or_assign k v m ≡ m ++ ((k, v) ∷ [])) × (text_lt i k ≡ true)
  unfolding find insert_or_assign
  emplace_last-Above i k v [] rest a = (refl, refl, a.0)
  emplace_last-Above i k v ((j, w) ∷ m) rest a = ground (
    arith,
    emplace_last-Above j k v m rest a.1,
    text_eq→eq j k,
    text_lt_irrefl k,
    text_lt_trans i j k,
    text_lt_trans j k j,
    text_lt_irrefl j,
  )

  pub emplace_last :
      (k : Bytes) (v : V) (m rest : Map V)
      → IsSorted (m ++ ((k, v) ∷ rest))
      → emplace k v m ≡ some (m ++ ((k, v) ∷ []))
  unfolding emplace
  emplace_last k v [] rest s = refl
  emplace_last k v ((j, w) ∷ m) rest s = ground (
    arith,
    emplace_last-Above j k v m rest s,
    text_eq→eq j k,
    text_lt_irrefl k,
    text_lt_trans j k j,
    text_lt_irrefl j,
  )

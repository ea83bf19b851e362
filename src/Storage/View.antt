-- ===== src/Storage/View.antt =====
-- The store as a function from keys to values, and what a transaction does to it.
use fsnet.Base.{
  inr, inl, ℕ, ◌≡◌, refl, ap, ◌∙◌, Bool, true, false, [], ◌∷◌, List, Option, none, some,
  if◌then◌else◌, Bytes, text_eq, Bool-cases, ok,
}
use fsnet.Base.Maps.{find, IsSorted}
use fsnet.Storage.{Record, Mutation, Memory, apply_one, apply_all, transact}
use fsnet.Storage.Apply.{IsStore, effect, find-apply_one, apply_one-IsSorted}
use fsnet.Storage.Transact.{Transacted, refused, committed, transact_inv}
use mathlib.Core.Path.{fun_ext}

-- The value that a client of the store sees at a key.
abbrev pub value_of : Option Record → Option Bytes
value_of none = none
value_of (some r) = some r.value

abbrev pub view : Memory → Bytes → Option Bytes
view s k = value_of (find k s.records)

-- The specification: one assignment after the other to a function.
abbrev pub assigned : Bool → Option Bytes → Option Bytes → Option Bytes
assigned true value old = old
assigned false value old = value

abbrev pub assign : Mutation → (Bytes → Option Bytes) → Bytes → Option Bytes
assign m f k = if text_eq m.key k then assigned m.check_only m.value (f k) else f k

abbrev pub assign_all : List Mutation → (Bytes → Option Bytes) → Bytes → Option Bytes
assign_all [] f = f
assign_all (m ∷ mutations) f = assign_all mutations (assign m f)

value_of-effect :
    (check_only : Bool) (value : Option Bytes) (revision : ℕ) (old : Option Record)
    → value_of (effect check_only value revision old) ≡ assigned check_only value (value_of old)
value_of-effect true value revision old = refl
value_of-effect false (some text) revision old = refl
value_of-effect false none revision old = refl

view-apply_one :
    (m : Mutation) (s : Memory) → IsSorted s.records → view (apply_one m s) ≡ assign m (view s)
view-apply_one m s sorted = fun_ext at
  where
    at : (k : Bytes) → view (apply_one m s) k ≡ assign m (view s) k
    at k = elim (Bool-cases (text_eq m.key k)) [
      | inl hit ↦ rw hit (
          ap value_of (rw hit at (find-apply_one m s k sorted))
          ∙ value_of-effect m.check_only m.value s.revision (find k s.records))
      | inr miss ↦ rw miss (ap value_of (rw miss at (find-apply_one m s k sorted)))
    ]

view-apply_all :
    (mutations : List Mutation) (s : Memory)
    → IsSorted s.records
    → view (apply_all mutations s) ≡ assign_all mutations (view s)
unfolding apply_all
view-apply_all [] s sorted = refl
view-apply_all (m ∷ mutations) s sorted =
    view-apply_all mutations (apply_one m s) (apply_one-IsSorted m s sorted)
    ∙ ap (assign_all mutations) (view-apply_one m s sorted)

-- The store seen as a function from keys to values: a transaction that commits performs all its
-- assignments, in order, and one that is refused performs none.
pub view-transact :
    (mutations : List Mutation) (s t : Memory) (r : Bool)
    → IsStore s
    → transact mutations s ≡ ok (r, t)
    → view t ≡ (if r then assign_all mutations (view s) else view s)
view-transact mutations s t r store h = by (transact_inv mutations s t r h).1
  where
    by :
        {r : Bool} {t : Memory}
        → Transacted mutations s r t
        → view t ≡ (if r then assign_all mutations (view s) else view s)
    by (refused stale) = refl
    by (committed current room) = view-apply_all mutations s store.sorted

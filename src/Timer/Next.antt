-- ===== src/Timer/Next.antt =====
-- `next_entity_timer` is the least due time.
use fsnet.Base.{if◌then◌else◌, ◌+◌, ◌∙◌, ◌≡◌, ◌≤◌, ◌⊎◌, inl, inr, [], ◌∷◌, arith, Bool-cases, refl}
use fsnet.Base.Int.{ℤ, pos, pos_part, neg_part, int64_max, ltb_ℤ}
use fsnet.Base.Maps.{Map}
use fsnet.Timer.{EntityTimer, EntityTimerState, next_loop, next_entity_timer}

infix 50 ◌≤ℤ◌
abbrev pub ◌≤ℤ◌ : ℤ → ℤ → Type 0
a ≤ℤ b = pos_part a + neg_part b ≤ pos_part b + neg_part a

abbrev pub DueFrom : ℤ → Map EntityTimer → Type 0
DueFrom due [] = Unit
DueFrom due ((key, t) ∷ entries) = (due ≤ℤ t.due_ms) × DueFrom due entries

abbrev pub DueAt : ℤ → Map EntityTimer → Type 0
DueAt due [] = ⊥
DueAt due ((key, t) ∷ entries) = (due ≡ t.due_ms) ⊎ DueAt due entries

abbrev pick : ℤ → ℤ → ℤ
pick a b = if ltb_ℤ a b then a else b

pick_least : (a b : ℤ) → (pick a b ≤ℤ a) × (pick a b ≤ℤ b) × ((pick a b ≡ a) ⊎ (pick a b ≡ b))
pick_least a b = elim (Bool-cases (ltb_ℤ a b)) [
  | inl e ↦ rw e (omega arith, ground arith, inl refl)
  | inr e ↦ rw e (ground arith, omega arith, inr refl)
]

next_loop_least :
    (entries : Map EntityTimer) (due : ℤ)
    → (next_loop entries due ≤ℤ due)
      × DueFrom (next_loop entries due) entries
      × ((next_loop entries due ≡ due) ⊎ DueAt (next_loop entries due) entries)
unfolding next_loop
next_loop_least [] due = (omega arith, tt, inl refl)
next_loop_least ((key, t) ∷ entries) due =
    let (le, from, at) = next_loop_least entries (pick t.due_ms due) in
    let (low, high, which) = pick_least t.due_ms due in
    (
      omega (arith, le, high),
      (omega (arith, le, low), from),
      elim at [
        | inr later ↦ inr (inr later)
        | inl same ↦ elim which [
          | inl this ↦ inr (inl (same ∙ this))
          | inr before ↦ inl (same ∙ before)
        ]
      ],
    )

abbrev pub NextOf : EntityTimerState → Type 0
NextOf state =
    (next_entity_timer state ≤ℤ pos int64_max)
    × DueFrom (next_entity_timer state) state.entries
    × ((next_entity_timer state ≡ pos int64_max) ⊎ DueAt (next_entity_timer state) state.entries)

-- `next_entity_timer` is at most INT64_MAX and at most every due time of the state, and it is one
-- of these.
pub next_entity_timer_least : (state : EntityTimerState) → NextOf state
unfolding next_entity_timer
next_entity_timer_least state = next_loop_least state.entries (pos int64_max)

-- ===== src/Directory/Locate.antt =====
-- The peer that `locate` chooses.
use fsnet.Base.{
  none, Option, sym, ℕ, ◌<◌, ◌≤◌, ◌≡◌, refl, ◌⊎◌, inl, inr, Bool, true, false, ◌&&◌, List, [], ◌∷◌,
  some, arith, ltb, Bool-cases, Bytes,
}
use fsnet.Base.Maps.{find, Map}
use fsnet.Base.Tests.{ltb_false→le, and_true, ltb→lt}
use fsnet.Directory.{entries_of, locate, Entry, score, is_better, select}
use mathlib.Core.Path.{subst}

-- A lease of `peer` that has not expired.
abbrev pub LeaseOf : ℕ → ℕ → List Entry → Type 0
LeaseOf peer now [] = ⊥
LeaseOf peer now (entry ∷ entries) =
    ((entry.peer ≡ peer) × (now < entry.expires)) ⊎ LeaseOf peer now entries

-- No other peer has a better right to the key: a higher score, or the same and a lower number.
abbrev pub Yields : Bytes → ℕ → ℕ → Type 0
Yields key peer other =
    (score key other < score key peer) ⊎ ((score key other ≡ score key peer) × (peer ≤ other))

Yields-refl : (key : Bytes) (a : ℕ) → Yields key a a
Yields-refl key a = inr (refl, omega arith)

Yields-trans : (key : Bytes) (a b c : ℕ) → Yields key a b → Yields key b c → Yields key a c
Yields-trans key a b c (inl p) (inl q) = inl (omega (arith, p, q))
Yields-trans key a b c (inl p) (inr (q, le)) = inl (omega (arith, p, q))
Yields-trans key a b c (inr (p, le)) (inl q) = inl (omega (arith, p, q))
Yields-trans key a b c (inr (p, le)) (inr (q, more)) =
    inr (omega (arith, p, q), omega (arith, le, more))

better : (u v a b : ℕ) → is_better u a (some b) v ≡ true → (v < u) ⊎ ((v ≡ u) × (a ≤ b))
better u v a b h = elim (Bool-cases (ltb v u)) [
  | inl more ↦ inl (ltb→lt v u more)
  | inr less ↦ inr (ground arith)
]

not_better : (u v a b : ℕ) → is_better u a (some b) v ≡ false → (u < v) ⊎ ((u ≡ v) × (b ≤ a))
not_better u v a b h = elim (Bool-cases (ltb u v)) [
  | inl less ↦ inl (ltb→lt u v less)
  | inr more ↦ inr (ground arith)
]

not_live : (a b : Bool) → (a && b) ≡ false → (a ≡ false) ⊎ (b ≡ false)
not_live false b h = inl refl
not_live true b h = inr h

-- The loop, once it has selected a peer, ends with the best of that one and those to come.
select_from :
    (key : Bytes) (now : ℕ) (entries : List Entry) (first : ℕ)
    → (p : ℕ) × (select key now entries (some first) (score key first) ≡ some p)
      × ((p ≡ first) ⊎ LeaseOf p now entries)
      × Yields key p first
      × ((q : ℕ) → LeaseOf q now entries → Yields key p q)
unfolding select
select_from key now [] first = (first, refl, inl refl, Yields-refl key first, λ q h. absurd h)
select_from key now (entry ∷ entries) first =
    elim (Bool-cases (
      ltb now entry.expires
      && is_better (score key entry.peer) entry.peer (some first) (score key first))) [
        | inl takes ↦
            let (live, wins) = and_true _ _ takes in
            let (p, found, lease, over, all) = select_from key now entries entry.peer in
            (
              p,
              rw (takes, select) found,
              elim lease [
                | inl same ↦ inr (inl (sym same, ltb→lt _ _ live))
                | inr later ↦ inr (inr later)
              ],
              Yields-trans key p entry.peer first over
                  (better (score key entry.peer) (score key first) entry.peer first wins),
              λ q h. elim h [
                | inl (same, _) ↦ subst (λ x. Yields key p x) same over
                | inr later ↦ all q later
              ],
            )
        | inr keeps ↦
            let (p, found, lease, over, all) = select_from key now entries first in
            (
              p,
              rw (keeps, select) found,
              elim lease [ inl same ↦ inl same | inr later ↦ inr (inr later) ],
              over,
              λ q h. elim h [
                | inl (same, live) ↦ elim (not_live (ltb now entry.expires) _ keeps) [
                  | inl expired ↦
                      absurd (omega (arith, live, ltb_false→le now entry.expires expired))
                  | inr loses ↦ rw same at (
                      Yields-trans key p first entry.peer over (
                        not_better (score key entry.peer) (score key first) entry.peer first loses))
                ]
                | inr later ↦ all q later
              ],
            )
      ]

-- What is said of the result of the loop.
abbrev pub Chosen : Bytes → ℕ → List Entry → Option ℕ → Type 0
Chosen key now entries none = (q : ℕ) → ¬ LeaseOf q now entries
Chosen key now entries (some p) =
    LeaseOf p now entries × ((q : ℕ) → LeaseOf q now entries → Yields key p q)

select-Chosen :
    (key : Bytes) (now : ℕ) (entries : List Entry)
    → Chosen key now entries (select key now entries none 0)
unfolding select
select-Chosen key now [] = λ q h. h
select-Chosen key now (entry ∷ entries) = elim (Bool-cases (ltb now entry.expires)) [
  | inl live ↦
      let (p, found, lease, over, all) = select_from key now entries entry.peer in
      let chosen : select key now (entry ∷ entries) none 0 ≡ some p = rw (live, select) found in
      subst (λ r. Chosen key now (entry ∷ entries) r) (sym chosen)
        (
          elim lease [ inl same ↦ inl (sym same, ltb→lt _ _ live) | inr later ↦ inr later ],
          λ q h. elim h [
            | inl (same, _) ↦ subst (λ x. Yields key p x) same over
            | inr later ↦ all q later
          ],
        )
  | inr expired ↦
      rw (expired, select)
        (later_chosen (select key now entries none 0) (ltb_false→le now entry.expires expired)
          (select-Chosen key now entries))
]
  where
    later_chosen :
        (r : Option ℕ)
        → entry.expires ≤ now
        → Chosen key now entries r
        → Chosen key now (entry ∷ entries) r
    later_chosen none old h =
        λ q lease. elim lease [ inl (_, live) ↦ omega (arith, live, old) | inr later ↦ h q later ]
    later_chosen (some p) old (lease, all) = (
      inr lease,
      λ q other. elim other [
        | inl (_, live) ↦ absurd (omega (arith, live, old))
        | inr later ↦ all q later
      ],
    )

-- `locate` returns a peer exactly if some lease of the service has not expired. The peer has such
-- a lease, and none with one has a better right to the key: the choice does not depend on the
-- order of the leases.
pub locate-Chosen :
    (service key : Bytes) (now : ℕ) (services : Map (List Entry))
    → Chosen key now (entries_of (find service services)) (locate service key now services)
unfolding locate
locate-Chosen service key now services = select-Chosen key now (entries_of (find service services))

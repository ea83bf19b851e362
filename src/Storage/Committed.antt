-- ===== src/Storage/Committed.antt =====
-- What a committed transaction of src/database.cpp has done of each mutation.
use fsnet.Base.{
  ℕ, ◌+◌, ◌≤◌, ◌<◌, ◌≡◌, refl, sym, ◌∙◌, Bool, true, false, [], ◌∷◌, List, Option, none, some,
  arith, Bytes, ok, All, text_eq, text_eq-false, text_eq_refl,
}
use fsnet.Base.Errors.{throw_if-eq-ok}
use fsnet.Base.Lists.{All-map}
use fsnet.Base.Maps.{find, IsSorted}
use fsnet.Storage.{write, Record, Mutation, Memory, apply_one, apply_all, validate_loop, is_member}
use fsnet.Storage.Apply.{effect, find-apply_one, apply_one-IsSorted, apply_all-Grows, Grows}

-- What a mutation makes of the record at its key: nothing if it only checks, else a record of the value
-- with a version above `low` and not above `high`, or no record.
abbrev pub Wrote : Bool → Option Bytes → ℕ → ℕ → Option Record → Option Record → Type 0
Wrote true value low high old new = new ≡ old
Wrote false none low high old new = new ≡ none
Wrote false (some text) low high old new =
    (version : ℕ) × (new ≡ some (record { value = text; version = version }))
    × (low < version)
    × (version ≤ high)

-- Every mutation has been done, and no other key has been touched.
pub record Committed (mutations : List Mutation) (s t : Memory) : Type 0 where
  pub each :
      All
        (λ m.
          Wrote m.check_only m.value s.revision t.revision
            (find m.key s.records)
            (find m.key t.records))
        mutations
  pub others :
      (k : Bytes) → All (λ m. ¬ (m.key ≡ k)) mutations → find k t.records ≡ find k s.records

All-zip {ℓ κ μ ν} :
    {A : Type ℓ} {P : A → Type κ} {Q : A → Type μ} {R : A → Type ν} (xs : List A)
    → ((x : A) → P x → Q x → R x)
    → All P xs
    → All Q xs
    → All R xs
All-zip [] f p q = tt
All-zip (x ∷ xs) f (p, ps) (q, qs) = (f x p q, All-zip xs f ps qs)

not_earlier :
    (first key : Bytes) (keys : List Bytes)
    → is_member key (first ∷ keys) ≡ false
    → is_member key keys ≡ false
unfolding is_member
not_earlier first key keys h = ground (arith, h)

not_first :
    (first key : Bytes) (keys : List Bytes) → is_member key (first ∷ keys) ≡ false → ¬ (key ≡ first)
unfolding is_member
not_first first key keys h same =
    let hit : text_eq first key ≡ true = rw same (text_eq_refl first) in ground (arith, h, hit)

-- The keys of valid mutations differ from those before them.
validated_keys :
    (mutations : List Mutation) (keys : List Bytes)
    → validate_loop mutations keys ≡ ok tt
    → All (λ m. is_member m.key keys ≡ false) mutations
unfolding validate_loop is_member
validated_keys [] keys h = tt
validated_keys (m ∷ mutations) keys h =
    let (_, h1) = throw_if-eq-ok _ _ _ h in
    let (fresh, h2) = throw_if-eq-ok (is_member m.key keys) _ _ h1 in
    (
      fresh,
      All-map mutations (λ n. not_earlier m.key n.key keys)
          (validated_keys mutations (m.key ∷ keys) h2),
    )

Grows-apply_one : (m : Mutation) (s : Memory) → IsSorted s.records → Grows s (apply_one m s)
Grows-apply_one m s sorted = unfold apply_all in (apply_all-Grows (m ∷ []) s sorted).1

hit_effect :
    (m : Mutation) (s : Memory)
    → IsSorted s.records
    → find m.key (apply_one m s).records
      ≡ effect m.check_only m.value s.revision (find m.key s.records)
hit_effect m s sorted = rw (text_eq_refl m.key) at (find-apply_one m s m.key sorted)

miss_effect :
    (m : Mutation) (s : Memory) (k : Bytes)
    → IsSorted s.records
    → ¬ (m.key ≡ k)
    → find k (apply_one m s).records ≡ find k s.records
miss_effect m s k sorted other = rw (text_eq-false m.key k other) at (find-apply_one m s k sorted)

Wrote-effect :
    (check_only : Bool) (value : Option Bytes) (key : Bytes) (s : Memory) (high : ℕ)
    (old new : Option Record)
    → (write key check_only value s).revision ≤ high
    → new ≡ effect check_only value s.revision old
    → Wrote check_only value s.revision high old new
unfolding write
Wrote-effect true value key s high old new le e = e
Wrote-effect false none key s high old new le e = e
Wrote-effect false (some text) key s high old new le e =
    (s.revision + 1, e, omega arith, omega (arith, le))

Wrote-earlier :
    (check_only : Bool) (value : Option Bytes) (lower low high : ℕ) (before old new : Option Record)
    → lower ≤ low
    → old ≡ before
    → Wrote check_only value low high old new
    → Wrote check_only value lower high before new
Wrote-earlier true value lower low high before old new le same w = w ∙ same
Wrote-earlier false none lower low high before old new le same w = w
Wrote-earlier false (some text) lower low high before old new le same (version, e, lo, hi) =
    (version, e, omega (arith, le, lo), hi)

pub apply_all-Committed :
    (mutations : List Mutation) (keys : List Bytes) (s : Memory)
    → IsSorted s.records
    → validate_loop mutations keys ≡ ok tt
    → Committed mutations s (apply_all mutations s)
unfolding apply_all validate_loop
apply_all-Committed [] keys s sorted h = record { each = tt; others = λ k all. refl }
apply_all-Committed (m ∷ mutations) keys s sorted h =
    let (_, h1) = throw_if-eq-ok _ _ _ h in
    let (_, h2) = throw_if-eq-ok (is_member m.key keys) _ _ h1 in
    let s1 = apply_one m s in
    let t = apply_all mutations s1 in
    let sorted1 = apply_one-IsSorted m s sorted in
    let rest = apply_all-Committed mutations (m.key ∷ keys) s1 sorted1 h2 in
    let differ : All (λ n. ¬ (n.key ≡ m.key)) mutations =
      All-map mutations (λ n. not_first m.key n.key keys)
        (validated_keys mutations (m.key ∷ keys) h2) in
    let first_grows = Grows-apply_one m s sorted in
    let later_grows = (apply_all-Grows mutations s1 sorted1).1 in
    record {
      each = (
        Wrote-effect m.check_only m.value m.key s t.revision (find m.key s.records)
            (find m.key t.records) (unfold apply_one in later_grows.revision)
            (rest.others m.key differ ∙ hit_effect m s sorted),
        All-zip mutations
            (λ n w other.
              Wrote-earlier n.check_only n.value s.revision s1.revision t.revision
                (find n.key s.records) (find n.key s1.records) (find n.key t.records)
                first_grows.revision (miss_effect m s n.key sorted (λ e. other (sym e))) w)
            rest.each differ,
      );
      others = λ k (other, all). rest.others k all ∙ miss_effect m s k sorted other;
    }

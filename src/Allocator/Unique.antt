-- ===== src/Allocator/Unique.antt =====
-- No identity is handed out twice, by whichever allocators.
use fsnet.Base.{
  Bool, refl, sym, ◌+◌, ◌∙◌, ap, ◌^◌, ℕ, ◌<◌, ◌≡◌, ◌∷◌, Option, some, ok, All, arith, none,
}
use fsnet.Base.Errors.{ok-injective}
use fsnet.Base.Lists.{All-map}
use fsnet.Allocator.{take_id, Allocator, sequence_key, high_water}
use fsnet.Allocator.Blocks.{
  lost, won, Passed, make_allocator_empty, swap_block_inv, take_id_inv, Reserved, Holds, Seen,
}
use fsnet.Allocator.Sound.{
  set-held, set-apart, set-previous, IsSound, Marked, start-IsSound, AllDiffer,
}
use fsnet.Allocator.World.{
  here, step, reads, swaps, takes, restarts, others, Reaches, Step, World, IsStart, set,
}
use fsnet.Storage.{Record}
use fsnet.Storage.Contract.{StorageContract}

module _ (storage : StorageContract) where
  open storage use {State, get, Proper, Later, later_refl, later_trans, later_proper}

  Seen-later : {s t : State} {p : Option Record} → Later s t → Seen storage s p → Seen storage t p
  Seen-later l seen = record {
    earlier = seen.earlier;
    proper = seen.proper;
    later = later_trans seen.later l;
    read = seen.read;
  }

  -- A pass that reserved a block leaves everything marked below it.
  Marked-Reserved :
      {a b : Allocator} {s t : State} (x : ℕ)
      → Reserved storage a b s t
      → Marked storage s x
      → (Marked storage t x × ((y : ℕ) → Holds b y → Marked storage t y × (x < y)))
  Marked-Reserved x r below =
      let le = below r.high r.was in
      let up : (high : ℕ) → high_water (get sequence_key _) ≡ ok high → high ≡ r.high + _ =
        λ high e. ok-injective (sym e ∙ r.becomes) in
      (
        λ high e. omega (arith, up high e),
        λ y h. (λ high e. omega (arith, up high e, h, r.next), omega (arith, h, r.next)),
      )

  takes-IsSound :
      (w : World storage) (i id : ℕ) (b : Allocator)
      → IsSound storage w
      → 0 < (w.allocators i).remaining
      → take_id (w.allocators i) ≡ ok (id, b)
      → IsSound storage (record w { allocators = set i b w.allocators; issued = id ∷ w.issued })
  takes-IsSound w i id b s some_left h =
      let (own, pos, rest, count) = take_id_inv (w.allocators i) b id some_left h in
      record {
        proper = s.proper;
        word = s.word;
        seen = s.seen;
        held =
            set-held (λ x. Marked storage w.store x × All (λ y. ¬ (y ≡ x)) (id ∷ w.issued)) i b
              w.allocators
              (λ x hx.
                let (was, other) = rest x hx in
                ((s.held i x was).0, (λ e. other (sym e), (s.held i x was).1)))
              (λ j x ne hx.
                ((s.held j x hx).0, (λ e. ne (s.apart i j x (rw e at own) hx), (s.held j x hx).1)));
        apart = set-apart i b w.allocators (λ j x hx g. s.apart i j x (rest x hx).0 g) s.apart;
        marked = ((s.held i id own).0, s.marked);
        nonzero = (pos, s.nonzero);
        differ = ((s.held i id own).1, s.differ);
      }

  reads-IsSound :
      (w : World storage) (i : ℕ)
      → IsSound storage w
      → IsSound storage (record w { previous = set i (some (get sequence_key w.store)) w.previous })
  reads-IsSound w i s = record {
    proper = s.proper;
    word = s.word;
    seen =
        set-previous
          (λ p. Seen storage w.store p × ((high : ℕ) → high_water p ≡ ok high → high < 2 ^ 64)) i _
          w.previous
          (λ p e.
            let same : get sequence_key w.store ≡ p = cc in
            (
              record {
                earlier = w.store;
                proper = s.proper;
                later = later_refl w.store;
                read = same;
              },
              λ high m. s.word high (ap high_water same ∙ m),
            ))
          s.seen;
    held = s.held;
    apart = s.apart;
    marked = s.marked;
    nonzero = s.nonzero;
    differ = s.differ;
  }

  -- the fate of what allocators had read, once the storage has moved on
  Seen-after :
      (w : World storage) (i : ℕ) (t : State)
      → IsSound storage w
      → Later w.store t
      → (j : ℕ) (p : Option Record) → set i none w.previous j ≡ some p
      → Seen storage t p × ((high : ℕ) → high_water p ≡ ok high → high < 2 ^ 64)
  Seen-after w i t s l =
      set-previous (λ p. Seen storage t p × ((high : ℕ) → high_water p ≡ ok high → high < 2 ^ 64)) i
        none w.previous (λ p e. cc) (λ j p e. (Seen-later l (s.seen j p e).0, (s.seen j p e).1))

  swapped_world : (w : World storage) (i : ℕ) (b : Allocator) (t : State) → World storage
  swapped_world w i b t = record w {
    store = t;
    allocators = set i b w.allocators;
    previous = set i none w.previous;
  }

  lost-IsSound :
      (w : World storage) (i : ℕ) (b : Allocator)
      → IsSound storage w
      → ((x : ℕ) → Holds b x → Holds (w.allocators i) x)
      → IsSound storage (swapped_world w i b w.store)
  unfolding swapped_world
  lost-IsSound w i b s less = record {
    proper = s.proper;
    word = s.word;
    seen = Seen-after w i w.store s (later_refl w.store);
    held =
        set-held (λ x. Marked storage w.store x × All (λ y. ¬ (y ≡ x)) w.issued) i b w.allocators
          (λ x hx. s.held i x (less x hx)) (λ j x ne hx. s.held j x hx);
    apart = set-apart i b w.allocators (λ j x hx g. s.apart i j x (less x hx) g) s.apart;
    marked = s.marked;
    nonzero = s.nonzero;
    differ = s.differ;
  }

  won-IsSound :
      (w : World storage) (i : ℕ) (b : Allocator) (t : State)
      → IsSound storage w
      → Later w.store t
      → Reserved storage (w.allocators i) b w.store t
      → IsSound storage (swapped_world w i b t)
  unfolding swapped_world
  won-IsSound w i b t s l r = record {
    proper = later_proper s.proper l;
    word = λ high e.
        let same : high ≡ r.high + b.remaining = ok-injective (sym e ∙ r.becomes) in
        omega (arith, same, r.count, r.below_max);
    seen = Seen-after w i t s l;
    held =
        set-held (λ x. Marked storage t x × All (λ y. ¬ (y ≡ x)) w.issued) i b w.allocators
          (λ x hx. (
            ((Marked-Reserved 0 r (λ high e. omega arith)).1 x hx).0,
            All-map w.issued (λ y m e. above x y hx m e) s.marked,
          ))
          (λ j x ne hx. ((Marked-Reserved x r (s.held j x hx).0).0, (s.held j x hx).1));
    apart =
        set-apart i b w.allocators (λ j x hx g. absurd (above x x hx (s.held j x g).0 refl))
          s.apart;
    marked = All-map w.issued (λ x m. (Marked-Reserved x r m).0) s.marked;
    nonzero = s.nonzero;
    differ = s.differ;
  }
    where
      above : (x y : ℕ) → Holds b x → Marked storage w.store y → ¬ (y ≡ x)
      above x y hx m e = omega (arith, (Marked-Reserved y r m).1 x hx)

  Step-IsSound : {w v : World storage} → IsSound storage w → Step storage w v → IsSound storage v
  unfolding swapped_world
  Step-IsSound {w} s (reads i empty) = reads-IsSound w i s
  Step-IsSound {w} s (swaps {t} {b} {r} i p read empty h) = passed (
      swap_block_inv storage (w.allocators i) b p w.store t r s.proper (s.seen i p read).0
        (s.seen i p read).1 h)
    where
      passed :
          {b : Allocator} {t : State} {r : Bool}
          → Passed storage (w.allocators i) w.store b t r
          → IsSound storage (swapped_world w i b t)
      passed lost = lost-IsSound w i (w.allocators i) s (λ x hx. hx)
      passed (won {b} {t} l reserved) = won-IsSound w i b t s l reserved
  Step-IsSound {w} s (takes {id} {b} i some_left h) = takes-IsSound w i id b s some_left h
  Step-IsSound {w} s (restarts {b} i block_size h) =
      lost-IsSound w i b s (λ x hx. absurd (omega (arith, hx, make_allocator_empty block_size b h)))
  Step-IsSound {w} s (others {t} l same) = record {
    proper = later_proper s.proper l;
    word = rw same s.word;
    seen = λ i p e. (Seen-later l (s.seen i p e).0, (s.seen i p e).1);
    held = rw same s.held;
    apart = s.apart;
    marked = rw same s.marked;
    nonzero = s.nonzero;
    differ = s.differ;
  }

  Reaches-IsSound :
      {w v : World storage} → IsSound storage w → Reaches storage w v → IsSound storage v
  Reaches-IsSound s here = s
  Reaches-IsSound s (step before last) = Step-IsSound (Reaches-IsSound s before) last

  -- However many allocators share a storage, and however their reads, exchanges and calls
  -- interleave, with restarts and with work on other keys between them: all identities that their
  -- calls of `allocate` returned are different, and none is zero.
  pub issued_once :
      {w v : World storage}
      → IsStart storage w
      → Reaches storage w v
      → AllDiffer v.issued × All (λ x. 0 < x) v.issued
  issued_once {w} {v} start run =
      let sound = Reaches-IsSound (start-IsSound storage w start) run in
      (sound.differ, sound.nonzero)

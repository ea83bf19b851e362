-- ===== src/Allocator/Later.antt =====
-- `allocate` leaves the storage in a later state.
use fsnet.Base.{
  true, false, ◌-◌, ◌^◌, ◌==◌, if◌then◌else◌, >>=-eq-ok, ◌≡◌, ℕ, zero, suc, Option, Bool,
}
use fsnet.Base.Errors.{throw_if-eq-ok, ok-subst, ok}
use fsnet.Allocator.{sequence_key, take_id, high_water, Allocator, allocate, swap_block, refill}
use fsnet.Storage.{Record}
use fsnet.Storage.Contract.{StorageContract}

module _ (storage : StorageContract) where
  open storage use {State, get, compare_exchange, Later, later_refl, later_trans, exchange_later}

  swap_block-Later :
      (a b : Allocator) (previous : Option Record) (s t : State) (r : Bool)
      → swap_block storage a previous s ≡ ok (r, b, t)
      → Later s t
  unfolding swap_block
  swap_block-Later a b previous s t r h =
      let (high, _, h1) = >>=-eq-ok (high_water previous) _ h in
      let (_, h2) = throw_if-eq-ok (high == 2 ^ 64 - 1) _ _ h1 in
      let ((swapped, u), done, same) = >>=-eq-ok _ _ h2 in
      ok-subst (λ (q : Bool × Allocator × State). Later s q.2) same (exchange_later _ _ _ done)

  refill-Later :
      (attempts : ℕ) (a b : Allocator) (s t : State)
      → refill storage attempts a s ≡ ok (b, t)
      → Later s t
  unfolding refill
  refill-Later zero a b s t h = ok-subst (λ (q : Allocator × State). Later s q.1) h (later_refl s)
  refill-Later (suc attempts) a b s t h =
      let ((done, c, u), e, h1) = >>=-eq-ok (swap_block storage a (get sequence_key s) s) _ h in
      by done c u (swap_block-Later a c (get sequence_key s) s u done e)
        (refill-Later attempts c b u t) h1
    where
      by :
          (done : Bool) (c : Allocator) (u : State)
          → Later s u
          → (refill storage attempts c u ≡ ok (b, t) → Later u t)
          → elim done [ true ↦ ok (c, u) | false ↦ refill storage attempts c u ] ≡ ok (b, t)
          → Later s t
      by true c u first again same = ok-subst (λ (q : Allocator × State). Later s q.1) same first
      by false c u first again rest = later_trans first (again rest)

  pub allocate-Later :
      (a b : Allocator) (s t : State) (id : ℕ) → allocate storage a s ≡ ok (id, b, t) → Later s t
  unfolding allocate
  allocate-Later a b s t id h =
      let ((filled, u), e, h1) = >>=-eq-ok _ _ h in
      let (_, h2) = throw_if-eq-ok (filled.remaining == 0) _ _ h1 in
      let (_, _, same) = >>=-eq-ok (take_id filled) _ h2 in
      ok-subst (λ (q : ℕ × Allocator × State). Later s q.2) same (by (a.remaining == 0) filled u e)
    where
      by :
          (empty : Bool) (filled : Allocator) (u : State)
          → (if empty then refill storage 128 a s else ok (a, s)) ≡ ok (filled, u)
          → Later s u
      by true filled u e = refill-Later 128 a filled s u e
      by false filled u e = ok-subst (λ (q : Allocator × State). Later s q.1) e (later_refl s)

-- ===== src/Snapshot/Framing.antt =====
-- The readers of a snapshot that build less agree with `decode_snapshot`.
use fsnet.Base.{
  inr, inl, drop, refl, ◌∷◌, sym, [], err, ℕ, zero, suc, ◌≡◌, ◌∙◌, ap, Bool, true, false, List,
  Bytes, ok, Outcome,
}
use fsnet.Base.Errors.{ok-subst, runtime_error, ok-injective}
use fsnet.Base.Tests.{Bool-cases, ltb}
use fsnet.Base.Texts.{codes, starts_with}
use fsnet.Delivery.{EntityDeliveryState}
use fsnet.Snapshot.{no_timers, EntitySnapshot, EntityReceipt}
use fsnet.Snapshot.Decode.{
  unknown_version, get_presence, decode_snapshot_timers, validate_snapshot_framing, decode_snapshot,
  get_snapshot_timers, get_framing, get_snapshot, get_receipts, skip_receipts, get_delivery,
  get_timers, skip_blob,
}
use fsnet.Timer.{EntityTimerState}
use fsnet.Wire.{value_of, get_flag, get_number, throw_unless_empty, bind_ok, get_blob, call}
use fsnet.Wire.Lengths.{value_of-eq-ok, guard_ok, guard_inv, bind_inv}

skips_receipts :
    (count : ℕ) (input rest : Bytes) (receipts : List EntityReceipt)
    → get_receipts count input ≡ ok (receipts, rest)
    → skip_receipts count input ≡ ok (tt, rest)
unfolding get_receipts skip_receipts
skips_receipts zero input rest receipts h =
    ap (λ p. ok (tt, p)) (ap (λ (p : List EntityReceipt × Bytes). p.1) (ok-injective h))
skips_receipts (suc count) input rest receipts h =
    let (id, in1, e1, h1) = bind_inv get_blob _ input h in
    let (route, in2, e2, h2) = bind_inv get_blob _ in1 h1 in
    let (request, in3, e3, h3) = bind_inv get_blob _ in2 h2 in
    let (response, in4, e4, h4) = bind_inv get_blob _ in3 h3 in
    let (more, in5, e5, same) = bind_inv (get_receipts count) _ in4 h4 in
    bind_ok get_blob _ input e1
    ∙ bind_ok get_blob _ in1 e2
    ∙ bind_ok get_blob _ in2 e3
    ∙ bind_ok get_blob _ in3 e4
    ∙ skips_receipts count in4 in5 more e5
    ∙ ap (λ (p : List EntityReceipt × Bytes). ok (tt, p.1)) (ok-injective same)

called :
    {A : Type 0} (o : Outcome A) (input rest : Bytes) (a : A)
    → call o input ≡ ok (a, rest)
    → input ≡ rest
called (ok b) input rest a h = cc
called (err e) input rest a h = cc

skips_delivery :
    (b : Bool) (input rest : Bytes) (d : EntityDeliveryState)
    → get_delivery b input ≡ ok (d, rest)
    → skip_blob b input ≡ ok (tt, rest)
skips_delivery true input rest d h =
    let (text, in1, e1, h1) = bind_inv get_blob _ input h in
    bind_ok get_blob _ input e1 ∙ ap (λ p. ok (tt, p)) (called _ in1 rest d h1)
skips_delivery false input rest d h =
    ap (λ (p : EntityDeliveryState × Bytes). ok (tt, p.1)) (ok-injective h)

skips_timers :
    (b : Bool) (input rest : Bytes) (t : EntityTimerState)
    → get_timers b input ≡ ok (t, rest)
    → skip_blob b input ≡ ok (tt, rest)
skips_timers true input rest t h =
    let (text, in1, e1, h1) = bind_inv get_blob _ input h in
    bind_ok get_blob _ input e1 ∙ ap (λ p. ok (tt, p)) (called _ in1 rest t h1)
skips_timers false input rest t h =
    ap (λ (p : EntityTimerState × Bytes). ok (tt, p.1)) (ok-injective h)

-- The parts that reading a snapshot takes off the input, one after the other.
record Parts (timed named : Bool) (input : Bytes) (s : EntitySnapshot) (rest : Bytes) : Type 0 where
  pub count : ℕ
  pub delivered : Bool
  pub in1 : Bytes
  pub in2 : Bytes
  pub in3 : Bytes
  pub in4 : Bytes
  pub in5 : Bytes
  pub state : get_blob input ≡ ok (s.state, in1)
  pub counted : get_number in1 ≡ ok (count, in2)
  pub few : ltb 1024 count ≡ false
  pub receipts : get_receipts count in2 ≡ ok (s.receipts, in3)
  pub presence : get_presence timed named in3 ≡ ok (delivered, in4)
  pub delivery : get_delivery delivered in4 ≡ ok (s.delivery, in5)
  pub timers : get_timers timed in5 ≡ ok (s.timers, [])

no_rest :
    (input : Bytes) {u : Unit {0}} {rest : Bytes}
    → throw_unless_empty runtime_error input ≡ ok (u, rest)
    → input ≡ []
no_rest [] e = refl
no_rest (b ∷ input) e = cc

parts :
    (timed named : Bool) (input : Bytes) (s : EntitySnapshot) (rest : Bytes)
    → get_snapshot timed named input ≡ ok (s, rest)
    → Parts timed named input s rest
unfolding get_snapshot
parts timed named input s rest h =
    let (state, in1, e1, h1) = bind_inv get_blob _ input h in
    let (count, in2, e2, h2) = bind_inv get_number _ in1 h1 in
    let (few, h3) = guard_inv (ltb 1024 count) runtime_error _ in2 h2 in
    let (receipts, in3, e4, h4) = bind_inv (get_receipts count) _ in2 h3 in
    let (delivered, in4, e5, h5) = bind_inv (get_presence timed named) _ in3 h4 in
    let (delivery, in5, e6, h6) = bind_inv (get_delivery delivered) _ in4 h5 in
    let (timers, in6, e7, h7) = bind_inv (get_timers timed) _ in5 h6 in
    let (_, in7, e8, same) = bind_inv (throw_unless_empty runtime_error) _ in6 h7 in
    ok-subst (λ (p : EntitySnapshot × Bytes). Parts timed named input p.0 p.1) same
      (record {
        count = count;
        delivered = delivered;
        in1 = in1;
        in2 = in2;
        in3 = in3;
        in4 = in4;
        in5 = in5;
        state = e1;
        counted = e2;
        few = few;
        receipts = e4;
        presence = e5;
        delivery = e6;
        timers = e7 ∙ ap (λ (t : Bytes). ok (timers, t)) (no_rest in6 e8);
      })

framed :
    (timed named : Bool) (input : Bytes) (s : EntitySnapshot) (rest : Bytes)
    → Parts timed named input s rest
    → get_framing timed named input ≡ ok (tt, [])
unfolding get_framing
framed timed named input s rest p =
    bind_ok get_blob _ input p.state
    ∙ bind_ok get_number _ p.in1 p.counted
    ∙ guard_ok _ runtime_error _ p.in2 p.few
    ∙ bind_ok (skip_receipts p.count) _ p.in2
        (skips_receipts p.count p.in2 p.in3 s.receipts p.receipts)
    ∙ bind_ok (get_presence timed named) _ p.in3 p.presence
    ∙ bind_ok (skip_blob p.delivered) _ p.in4
        (skips_delivery p.delivered p.in4 p.in5 s.delivery p.delivery)
    ∙ bind_ok (skip_blob timed) _ p.in5 (skips_timers timed p.in5 [] s.timers p.timers)

timed_only :
    (named : Bool) (input : Bytes) (s : EntitySnapshot) (rest : Bytes)
    → Parts true named input s rest
    → get_snapshot_timers input ≡ ok (s.timers, [])
unfolding get_snapshot_timers
timed_only named input s rest p =
    bind_ok get_blob _ input p.state
    ∙ bind_ok get_number _ p.in1 p.counted
    ∙ guard_ok _ runtime_error _ p.in2 p.few
    ∙ bind_ok (skip_receipts p.count) _ p.in2
        (skips_receipts p.count p.in2 p.in3 s.receipts p.receipts)
    ∙ bind_ok (get_flag runtime_error) _ p.in3 p.presence
    ∙ bind_ok (skip_blob p.delivered) _ p.in4
        (skips_delivery p.delivered p.in4 p.in5 s.delivery p.delivery)
    ∙ bind_ok (get_timers true) _ p.in5 p.timers

untimed :
    (input rest : Bytes) (t : EntityTimerState)
    → get_timers false input ≡ ok (t, rest)
    → t ≡ no_timers
untimed input rest t h = ap (λ (p : EntityTimerState × Bytes). p.0) (sym (ok-injective h))

timers_agree :
    (timed named : Bool) (input : Bytes) (s : EntitySnapshot) (rest : Bytes)
    → Parts timed named (drop 4 input) s rest
    → starts_with input (codes "FSP3") ≡ timed
    → validate_snapshot_framing input ≡ ok tt
    → decode_snapshot_timers input ≡ ok s.timers
unfolding decode_snapshot_timers
timers_agree true named input s rest p version valid =
    rw version (ap value_of (timed_only named (drop 4 input) s rest p))
timers_agree false named input s rest p version valid =
    rw (version, valid) (ap ok (sym (untimed p.in5 [] s.timers p.timers)))

-- Whatever bytes `decode_snapshot` accepts, `validate_snapshot_framing` accepts, and
-- `decode_snapshot_timers` returns the timers of the decoded snapshot.
pub readers_agree :
    (input : Bytes) (s : EntitySnapshot)
    → decode_snapshot input ≡ ok s
    → (validate_snapshot_framing input ≡ ok tt) × (decode_snapshot_timers input ≡ ok s.timers)
unfolding decode_snapshot validate_snapshot_framing
readers_agree input s h = elim (Bool-cases (unknown_version input)) [
  | inl unknown ↦ cc (rw unknown at h)
  | inr known ↦
      let (rest, read) = value_of-eq-ok _ (rw known at h) in
      let timed = starts_with input (codes "FSP3") in
      let named = starts_with input (codes "FSP2") in
      let p = parts timed named (drop 4 input) s rest read in
      let valid : validate_snapshot_framing input ≡ ok tt =
        rw known (ap value_of (framed timed named (drop 4 input) s rest p)) in
      (valid, timers_agree timed named input s rest p refl valid)
]

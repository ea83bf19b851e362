-- ===== src/Snapshot/RoundTrip.antt =====
-- `decode_snapshot` reads back what `encode_snapshot` wrote.
use fsnet.Base.{
  ap, ◌∙◌, ℕ, zero, suc, ◌<◌, ◌^◌, ◌≡◌, refl, Bool, true, false, not, ◌&&◌, [], ◌∷◌, ◌++◌, List,
  arith, length, Bytes, ok, ◌==◌,
}
use fsnet.Base.Errors.{runtime_error, >>=-eq-ok, throw_if-eq-ok, ok-subst}
use fsnet.Base.Maps.{Map, IsSorted}
use fsnet.Base.Tests.{ltb_false→le, ltb}
use fsnet.Base.Texts.{starts_with}
use fsnet.Delivery.{DeliveryMessage, DeliveryCursor, EntityDeliveryState}
use fsnet.Delivery.Decode.{decode_delivery_state}
use fsnet.Delivery.Encode.{encode_delivery_state}
use fsnet.Delivery.RoundTrip.{SentFit, InboxFit, OutboxFit, decode-encode_delivery_state}
use fsnet.Snapshot.{EntityReceipt, EntitySnapshot, no_delivery, no_timers, has_timers}
use fsnet.Snapshot.Decode.{
  get_receipts, get_presence, get_delivery, get_timers, get_snapshot, decode_snapshot,
}
use fsnet.Snapshot.Encode.{
  put_receipts, put_delivery, put_timers, magic, put_presence, lacks_epoch, encode_snapshot,
}
use fsnet.Timer.{EntityTimer, EntityTimerState}
use fsnet.Timer.Decode.{decode_entity_timers}
use fsnet.Timer.Encode.{encode_entity_timers}
use fsnet.Timer.Records.{decode-encode}
use fsnet.Timer.RoundTrip.{AreInt64}
use fsnet.Wire.{get_number, value_of, get_blob, put_blob}
use fsnet.Wire.Reads.{
  ReadsAll-last, ReadsAll-guard, Reads-number, Reads-call, Reads-flag, Reads, Reads-bind, Reads-end,
  Reads-pure, Reads-put_blob, ReadsAll-bind,
}

pub record DeliveryFits (d : EntityDeliveryState) : Type 0 where
  pub epoch : d.epoch < 2 ^ 64
  pub sent : SentFit d.sent × IsSorted d.sent
  pub inbox : InboxFit d.inbox × IsSorted d.inbox
  pub outbox : OutboxFit d.outbox

pub record TimersFit (t : EntityTimerState) : Type 0 where
  pub sequence : t.sequence < 2 ^ 64
  pub sorted : IsSorted t.entries
  pub times : AreInt64 t.entries

pub Reads-receipts :
    (receipts : List EntityReceipt) (out : Bytes)
    → put_receipts receipts ≡ ok out
    → Reads (get_receipts (length receipts)) out receipts
unfolding put_receipts get_receipts
Reads-receipts [] out h = ok-subst (λ text. Reads (get_receipts 0) text []) h (Reads-pure [])
Reads-receipts (r ∷ receipts) out h =
    let (id, e1, h1) = >>=-eq-ok (put_blob r.id) _ h in
    let (route, e2, h2) = >>=-eq-ok (put_blob r.route) _ h1 in
    let (request, e3, h3) = >>=-eq-ok (put_blob r.request) _ h2 in
    let (response, e4, h4) = >>=-eq-ok (put_blob r.response) _ h3 in
    let (rest, e5, same) = >>=-eq-ok (put_receipts receipts) _ h4 in
    ok-subst (λ text. Reads (get_receipts (suc (length receipts))) text (r ∷ receipts)) same
      (Reads-bind get_blob _ id _ r.id _ (Reads-put_blob _ _ e1) (
        Reads-bind get_blob _ route _ r.route _ (Reads-put_blob _ _ e2) (
          Reads-bind get_blob _ request _ r.request _ (Reads-put_blob _ _ e3) (
            Reads-bind get_blob _ response _ r.response _ (Reads-put_blob _ _ e4) (
              Reads-end (get_receipts (length receipts)) _ rest receipts _
                (Reads-receipts receipts rest e5) (Reads-pure (r ∷ receipts)))))))

Reads-delivery :
    (b : Bool) (d : EntityDeliveryState) (out : Bytes)
    → DeliveryFits d
    → (b ≡ false → d ≡ no_delivery)
    → put_delivery b d ≡ ok out
    → Reads (get_delivery b) out d
Reads-delivery false d out fits absent h =
    ok-subst (λ text. Reads (get_delivery false) text d) h
      (rw (absent refl) (Reads-pure no_delivery))
Reads-delivery true d out fits absent h =
    let (text, encoded, written) = >>=-eq-ok (encode_delivery_state d) _ h in
    Reads-end get_blob _ out text d (Reads-put_blob text out written) (
      Reads-call (decode_delivery_state text) d
        (decode-encode_delivery_state d text fits.epoch fits.sent fits.inbox fits.outbox encoded))

Reads-timers :
    (b : Bool) (t : EntityTimerState) (out : Bytes)
    → TimersFit t
    → (b ≡ false → t ≡ no_timers)
    → put_timers b t ≡ ok out
    → Reads (get_timers b) out t
Reads-timers false t out fits absent h =
    ok-subst (λ text. Reads (get_timers false) text t) h (rw (absent refl) (Reads-pure no_timers))
Reads-timers true t out fits absent h =
    let (text, encoded, written) = >>=-eq-ok (encode_entity_timers t) _ h in
    Reads-end get_blob _ out text t (Reads-put_blob text out written) (
      Reads-call (decode_entity_timers text) t
        (decode-encode t text fits.sequence fits.sorted fits.times encoded))

Reads-presence :
    (timed delivered : Bool)
    → Reads (get_presence timed (not timed && delivered)) (put_presence timed delivered) delivered
Reads-presence true delivered = Reads-flag runtime_error delivered
Reads-presence false delivered = Reads-pure delivered

-- What an epoch of zero leaves of a delivery state.
absent_delivery :
    (epoch : ℕ) (sent : Map ℕ) (inbox : Map DeliveryCursor) (outbox : List DeliveryMessage)
    → lacks_epoch (record { epoch = epoch; sent = sent; inbox = inbox; outbox = outbox }) ≡ false
    → not (epoch == 0) ≡ false
    → record { epoch = epoch; sent = sent; inbox = inbox; outbox = outbox } ≡ no_delivery
absent_delivery (suc n) sent inbox outbox h none_there = absurd (ground arith)
absent_delivery zero [] [] [] h none_there = refl
absent_delivery zero (p ∷ sent) inbox outbox h none_there = cc
absent_delivery zero [] (p ∷ inbox) outbox h none_there = cc
absent_delivery zero [] [] (m ∷ outbox) h none_there = cc

absent_timers :
    (sequence : ℕ) (token : Bytes) (entries : Map EntityTimer)
    → has_timers (record { sequence = sequence; token = token; entries = entries }) ≡ false
    → record { sequence = sequence; token = token; entries = entries } ≡ no_timers
absent_timers zero [] [] h = refl
absent_timers zero [] (p ∷ entries) h = cc
absent_timers (suc n) [] entries h = absurd (ground arith)
absent_timers sequence (c ∷ token) entries h = cc

-- The version of a snapshot is read back.
decode-magic :
    (timed delivered : Bool) (rest : Bytes)
    → decode_snapshot (magic timed delivered ++ rest)
      ≡ value_of (get_snapshot timed (not timed && delivered) rest)
unfolding decode_snapshot starts_with
decode-magic true delivered rest = refl
decode-magic false true rest = refl
decode-magic false false rest = refl

-- A snapshot that was encoded is decoded to itself, in each of the three versions: the numbers of
-- its deliveries and timers are those of 64-bit words, and its maps are in key order.
pub decode-encode_snapshot :
    (s : EntitySnapshot) (out : Bytes)
    → DeliveryFits s.delivery
    → TimersFit s.timers
    → encode_snapshot s ≡ ok out
    → decode_snapshot out ≡ ok s
unfolding encode_snapshot get_snapshot
decode-encode_snapshot s out fits times h =
    let timed = has_timers s.timers in
    let delivered = not (s.delivery.epoch == 0) in
    let (lacks, h1) = throw_if-eq-ok (lacks_epoch s.delivery) _ _ h in
    let (state, e2, h2) = >>=-eq-ok (put_blob s.state) _ h1 in
    let (count, h3) = throw_if-eq-ok (ltb 1024 (length s.receipts)) _ _ h2 in
    let (receipts, e4, h4) = >>=-eq-ok (put_receipts s.receipts) _ h3 in
    let (deliveries, e5, h5) = >>=-eq-ok (put_delivery delivered s.delivery) _ h4 in
    let (timers, e6, same) = >>=-eq-ok (put_timers timed s.timers) _ h5 in
    ok-subst (λ text. decode_snapshot text ≡ ok s) same
      (decode-magic timed delivered _
        ∙ ap value_of
            (ReadsAll-bind get_blob _ state _ s.state _ (Reads-put_blob _ _ e2) (
              ReadsAll-bind get_number _ _ _ (length s.receipts) _
                (Reads-number (length s.receipts) (omega (arith, ltb_false→le _ _ count)))
                (ReadsAll-guard _ runtime_error _ _ _ count (
                  ReadsAll-bind (get_receipts (length s.receipts)) _ receipts _ s.receipts _
                    (Reads-receipts s.receipts receipts e4)
                    (ReadsAll-bind (get_presence timed (not timed && delivered)) _ _ _ delivered _
                      (Reads-presence timed delivered)
                      (ReadsAll-bind (get_delivery delivered) _ deliveries _ s.delivery _
                        (Reads-delivery delivered s.delivery deliveries fits
                          (absent_delivery s.delivery.epoch s.delivery.sent s.delivery.inbox
                            s.delivery.outbox lacks)
                          e5)
                        (ReadsAll-last (get_timers timed) _ timers s.timers _
                          (Reads-timers timed s.timers timers times
                            (absent_timers s.timers.sequence s.timers.token s.timers.entries) e6)
                          refl))))))).at)

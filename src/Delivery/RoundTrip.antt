-- ===== src/Delivery/RoundTrip.antt =====
-- `decode_delivery_state` reads back what `encode_delivery_state` wrote.
use fsnet.Base.{
  ◌≤◌, not, false, ◌||◌, ◌==◌, ℕ, suc, ◌<◌, ◌^◌, ◌≡◌, refl, [], ◌∷◌, ◌++◌, List, arith, length,
  Bytes, ok, All,
}
use fsnet.Base.Errors.{invalid_argument, >>=-eq-ok, throw_if-eq-ok, ok-subst}
use fsnet.Base.Maps.{Map, IsSorted, emplace_last, emplace}
use fsnet.Base.Tests.{le→ltb_false, ltb}
use fsnet.Base.Texts.{codes, starts_with}
use fsnet.Delivery.{max_state, DeliveryMessage, DeliveryCursor, EntityDeliveryState}
use fsnet.Delivery.Channel.{channel_key-length, channel_key}
use fsnet.Delivery.Decode.{
  get_result, get_message, get_sent, get_inbox, get_outbox, get_delivery_state,
  decode_delivery_state,
}
use fsnet.Delivery.Encode.{
  put_result, put_message, put_sent, put_inbox, put_outbox, encode_delivery_state,
}
use fsnet.Delivery.Fields.{Reads-result, Reads-message}
use fsnet.Storage.{is_member}
use fsnet.Wire.{
  or_throw, call, get_number, get_blob, get_integer, put_number, put_blob, put_integer,
}
use fsnet.Wire.Reads.{
  Reads-or_throw, ReadsAll-last, Reads-call, ReadsAll-guard, Reads-number, Reads-put_blob,
  ReadsAll-bind, Reads, Reads-bind, Reads-guard, Reads-pure, Reads-end, Reads-integer, ReadsAll,
}
use mathlib.Core.List.{append-nil, append_assoc}

-- Numbers that are those of 64-bit words.
abbrev pub SentFit : Map ℕ → Type 0
SentFit sent = All (λ (p : Bytes × ℕ). p.1 < 2 ^ 64) sent

abbrev pub InboxFit : Map DeliveryCursor → Type 0
InboxFit inbox = All (λ (p : Bytes × DeliveryCursor). p.1.sequence < 2 ^ 64) inbox

abbrev pub OutboxFit : List DeliveryMessage → Type 0
OutboxFit outbox = All (λ m. (m.target_epoch < 2 ^ 64) × (m.sequence < 2 ^ 64)) outbox

Reads-sent :
    (sent before : Map ℕ) (out : Bytes)
    → SentFit sent
    → IsSorted (before ++ sent)
    → put_sent sent ≡ ok out
    → Reads (get_sent (length sent) before) out (before ++ sent)
unfolding put_sent get_sent
Reads-sent [] before out fit sorted h =
    ok-subst (λ text. Reads (get_sent 0 before) text (before ++ [])) h
      (rw (append-nil before) (Reads-pure before))
Reads-sent ((key, n) ∷ sent) before out (word, fit) sorted h =
    let (_, channel, h1) = >>=-eq-ok (channel_key key) _ h in
    let (nonzero, h2) = throw_if-eq-ok (n == 0) _ _ h1 in
    let (name, e3, h3) = >>=-eq-ok (put_blob key) _ h2 in
    let (rest, e4, same) = >>=-eq-ok (put_sent sent) _ h3 in
    let here : IsSorted ((before ++ ((key, n) ∷ [])) ++ sent) =
      rw (append_assoc before ((key, n) ∷ []) sent) sorted in
    ok-subst
      (λ text. Reads (get_sent (suc (length sent)) before) text (before ++ ((key, n) ∷ sent))) same
      (Reads-bind get_blob _ name _ key _ (Reads-put_blob _ _ e3) (
        Reads-bind (call (channel_key key)) _ [] _ tt _ (Reads-call _ tt channel) (
          Reads-bind get_integer _ _ _ n _ (Reads-integer n word) (
            Reads-guard _ invalid_argument _ _ _
              (rw (le→ltb_false 512 (length key) (omega (arith, channel_key-length key channel)))
                nonzero)
              (Reads-bind (or_throw (emplace key n before) invalid_argument) _ [] _ _ _
                (Reads-or_throw _ _ _ (emplace_last key n before sent sorted))
                (rw (append_assoc before ((key, n) ∷ []) sent) at
                  (Reads-sent sent (before ++ ((key, n) ∷ [])) rest fit here e4)))))))

Reads-inbox :
    (inbox before : Map DeliveryCursor) (out : Bytes)
    → InboxFit inbox
    → IsSorted (before ++ inbox)
    → put_inbox inbox ≡ ok out
    → Reads (get_inbox (length inbox) before) out (before ++ inbox)
unfolding put_inbox get_inbox
Reads-inbox [] before out fit sorted h =
    ok-subst (λ text. Reads (get_inbox 0 before) text (before ++ [])) h
      (rw (append-nil before) (Reads-pure before))
Reads-inbox ((key, c) ∷ inbox) before out (word, fit) sorted h =
    let (_, channel, h1) = >>=-eq-ok (channel_key key) _ h in
    let (good, h2) = throw_if-eq-ok (c.sequence == 0 || not (length c.digest == 64)) _ _ h1 in
    let (name, e3, h3) = >>=-eq-ok (put_blob key) _ h2 in
    let (digest, e4, h4) = >>=-eq-ok (put_blob c.digest) _ h3 in
    let (result, e5, h5) = >>=-eq-ok (put_result c.result) _ h4 in
    let (rest, e6, same) = >>=-eq-ok (put_inbox inbox) _ h5 in
    let here : IsSorted ((before ++ ((key, c) ∷ [])) ++ inbox) =
      rw (append_assoc before ((key, c) ∷ []) inbox) sorted in
    ok-subst
      (λ text. Reads (get_inbox (suc (length inbox)) before) text (before ++ ((key, c) ∷ inbox)))
      same
      (Reads-bind get_blob _ name _ key _ (Reads-put_blob _ _ e3) (
        Reads-bind (call (channel_key key)) _ [] _ tt _ (Reads-call _ tt channel) (
          Reads-bind get_integer _ _ _ c.sequence _ (Reads-integer c.sequence word) (
            Reads-bind get_blob _ digest _ c.digest _ (Reads-put_blob _ _ e4) (
              Reads-bind get_result _ result _ c.result _ (Reads-result _ _ e5) (
                Reads-guard _ invalid_argument _ _ _
                  (rw
                    (le→ltb_false 512 (length key) (omega (arith, channel_key-length key channel)))
                    good)
                  (Reads-bind (or_throw (emplace key c before) invalid_argument) _ [] _ _ _
                    (Reads-or_throw _ _ _ (emplace_last key c before inbox sorted))
                    (rw (append_assoc before ((key, c) ∷ []) inbox) at
                      (Reads-inbox inbox (before ++ ((key, c) ∷ [])) rest fit here e6)))))))))

Reads-outbox :
    (outbox : List DeliveryMessage) (tickets : List Bytes) (out : Bytes)
    → OutboxFit outbox
    → put_outbox outbox tickets ≡ ok out
    → Reads (get_outbox (length outbox) tickets) out outbox
unfolding put_outbox get_outbox
Reads-outbox [] tickets out fit h =
    ok-subst (λ text. Reads (get_outbox 0 tickets) text []) h (Reads-pure [])
Reads-outbox (m ∷ outbox) tickets out ((epoch_word, word), fit) h =
    let (new, h1) = throw_if-eq-ok (is_member m.ticket tickets) _ _ h in
    let (message, e2, h2) = >>=-eq-ok (put_message m) _ h1 in
    let (rest, e3, same) = >>=-eq-ok (put_outbox outbox (m.ticket ∷ tickets)) _ h2 in
    ok-subst (λ text. Reads (get_outbox (suc (length outbox)) tickets) text (m ∷ outbox)) same
      (Reads-bind get_message _ message _ m _ (Reads-message m message epoch_word word e2) (
        Reads-guard _ invalid_argument _ _ _ new (
          Reads-end (get_outbox (length outbox) (m.ticket ∷ tickets)) _ rest outbox _
            (Reads-outbox outbox (m.ticket ∷ tickets) rest fit e3) (Reads-pure (m ∷ outbox)))))

abbrev body : EntityDeliveryState → Bytes → Bytes → Bytes → Bytes
body s sent inbox outbox =
    put_integer s.epoch
    ++ (put_number (length s.sent)
        ++ (sent
            ++ (put_number (length s.inbox)
                ++ (inbox ++ (put_number (length s.outbox) ++ outbox)))))

record Counts (s : EntityDeliveryState) : Type 0 where
  pub epoch : (s.epoch == 0) ≡ false
  pub sent : length s.sent ≤ 4096
  pub inbox : length s.inbox ≤ 4096
  pub outbox : length s.outbox ≤ 1024

counts :
    (s : EntityDeliveryState)
    → (s.epoch == 0
        || ltb 4096 (length s.sent)
        || ltb 4096 (length s.inbox)
        || ltb 1024 (length s.outbox))
      ≡ false
    → Counts s
counts s h = record {
  epoch = ground arith;
  sent = ground arith;
  inbox = ground arith;
  outbox = ground arith;
}

ReadsAll-delivery_state :
    (s : EntityDeliveryState) (sent inbox outbox : Bytes)
    → s.epoch < 2 ^ 64
    → Counts s
    → Reads (get_sent (length s.sent) []) sent s.sent
    → Reads (get_inbox (length s.inbox) []) inbox s.inbox
    → Reads (get_outbox (length s.outbox) []) outbox s.outbox
    → ReadsAll get_delivery_state (body s sent inbox outbox) s
unfolding get_delivery_state
ReadsAll-delivery_state s sent inbox outbox word c r1 r2 r3 =
    ReadsAll-bind get_integer _ _ _ s.epoch _ (Reads-integer s.epoch word) (
      ReadsAll-bind get_number _ _ _ (length s.sent) _
        (Reads-number (length s.sent) (omega (arith, c.sent)))
        (ReadsAll-guard _ invalid_argument _ _ _ (le→ltb_false 4096 _ c.sent) (
          ReadsAll-bind (get_sent (length s.sent) []) _ sent _ s.sent _ r1 (
            ReadsAll-bind get_number _ _ _ (length s.inbox) _
              (Reads-number (length s.inbox) (omega (arith, c.inbox)))
              (ReadsAll-guard _ invalid_argument _ _ _ (le→ltb_false 4096 _ c.inbox) (
                ReadsAll-bind (get_inbox (length s.inbox) []) _ inbox _ s.inbox _ r2 (
                  ReadsAll-bind get_number _ _ _ (length s.outbox) _
                    (Reads-number (length s.outbox) (omega (arith, c.outbox)))
                    (ReadsAll-guard _ invalid_argument _ _ _ (le→ltb_false 1024 _ c.outbox) (
                      ReadsAll-last (get_outbox (length s.outbox) []) _ outbox s.outbox _ r3
                        (rw c.epoch refl))))))))))

-- A delivery state that was encoded is decoded to itself: its numbers are those of 64-bit words,
-- and its maps are in key order.
pub decode-encode_delivery_state :
    (s : EntityDeliveryState) (out : Bytes)
    → s.epoch < 2 ^ 64
    → SentFit s.sent × IsSorted s.sent
    → InboxFit s.inbox × IsSorted s.inbox
    → OutboxFit s.outbox
    → encode_delivery_state s ≡ ok out
    → decode_delivery_state out ≡ ok s
unfolding encode_delivery_state decode_delivery_state starts_with
decode-encode_delivery_state s out word (sent_fit, sent_sorted) (inbox_fit, inbox_sorted) outbox_fit
      h =
    let (good, h1) =
      throw_if-eq-ok
        (s.epoch == 0
          || ltb 4096 (length s.sent)
          || ltb 4096 (length s.inbox)
          || ltb 1024 (length s.outbox))
        _ _ h in
    let (sent, e2, h2) = >>=-eq-ok (put_sent s.sent) _ h1 in
    let (inbox, e3, h3) = >>=-eq-ok (put_inbox s.inbox) _ h2 in
    let (outbox, e4, h4) = >>=-eq-ok (put_outbox s.outbox []) _ h3 in
    let (budget, same) =
      throw_if-eq-ok (ltb max_state (length (codes "FDS1" ++ body s sent inbox outbox))) _ _ h4 in
    ok-subst (λ text. decode_delivery_state text ≡ ok s) same
      (rw
        (
          budget,
          (ReadsAll-delivery_state s sent inbox outbox word (counts s good)
              (Reads-sent s.sent [] sent sent_fit sent_sorted e2)
              (Reads-inbox s.inbox [] inbox inbox_fit inbox_sorted e3)
              (Reads-outbox s.outbox [] outbox outbox_fit e4)).at,
        )
        refl)

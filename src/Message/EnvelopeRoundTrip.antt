-- ===== src/Message/EnvelopeRoundTrip.antt =====
-- The parsers of include/fsnet/entity_message.hpp read what its writers wrote.
use fsnet.Base.{
  sym, ◌∙◌, length-append, ◌||◌, ok-injective, le→ltb_false, runtime_error, if◌then◌else◌, ◌-◌, suc,
  is_empty, not, ◌^◌, ℕ, ◌≤◌, ◌<◌, ◌≡◌, refl, false, [], ◌∷◌, ◌++◌, arith, length, Bytes, ok, codes,
  some,
}
use fsnet.Base.Errors.{throw_if-eq-ok}
use fsnet.Base.Tests.{==_false, ltb}
use fsnet.Base.Texts.{length-is_empty, contains_byte, starts_with}
use fsnet.Message.{has_separator}
use fsnet.Message.Envelope.{
  bad_part, put_sized, put_token, entity_message, entity_route, state_message,
}
use fsnet.Message.Parse.{get_sized, get_token, get_message, parse_entity, parse_state, get_state}
use fsnet.Wire.{take_text, get_number, put_uint, get_uint}
use fsnet.Wire.Reads.{
  Reads-text, Reads, Reads-pure, Reads-guard, Reads-bind, Reads-uint, ReadsAll, ReadsAll-bind,
}
use fsnet.Wire.RoundTrip.{length-put_uint}
use mathlib.Core.Path.{ap₂}

Reads-sized :
    (maximum : ℕ) (text : Bytes)
    → 0 < length text
    → length text ≤ maximum
    → maximum < 2 ^ 16
    → Reads (get_sized maximum) (put_sized text) text
unfolding get_sized
Reads-sized maximum text pos le word =
    Reads-bind (get_uint runtime_error 2) _ _ _ (length text) _
      (Reads-uint runtime_error 2 (length text) (omega arith) (omega arith))
      (Reads-guard _ runtime_error _ _ _
        (rw (==_false (length text) 0 (omega arith)) (le→ltb_false maximum (length text) le))
        (Reads-text runtime_error text))

Reads-token :
    (request : Bytes)
    → length request ≤ 128
    → Reads (get_token (not (is_empty request))) (put_token request) request
Reads-token [] le = Reads-pure []
Reads-token (c ∷ request) le = Reads-sized 128 (c ∷ request) (omega arith) le (omega arith)

ReadsAll-message :
    (id payload request : Bytes)
    → 0 < length id
    → length id ≤ 256
    → length request ≤ 128
    → ReadsAll
        (get_message (not (is_empty request)))
        (put_sized id ++ (put_token request ++ payload))
        (record { id = id; payload = payload; request_id = request })
unfolding get_message
ReadsAll-message id payload request pos le small =
    ReadsAll-bind (get_sized 256) _ _ _ id _ (Reads-sized 256 id pos le (omega arith)) (
      ReadsAll-bind (get_token (not (is_empty request))) _ _ _ request _ (Reads-token request small)
        (record { at = refl }))

enough :
    (id rest : Bytes)
    → 0 < length id
    → ltb (suc (suc (suc (suc (length (put_sized id ++ rest)))))) 6 ≡ false
enough id rest pos = le→ltb_false _ 6 (simp (length-append, length-put_uint) (omega (arith, pos)))

ReadsAll-state :
    (state payload : Bytes)
    → length state < 2 ^ 32
    → ReadsAll get_state
        (put_uint 4 (length state) ++ (state ++ payload))
        (record { state = state; payload = payload })
unfolding get_state
ReadsAll-state state payload word =
    ReadsAll-bind get_number _ _ _ (length state) _
      (Reads-uint runtime_error 4 (length state) (omega arith) (omega arith))
      (ReadsAll-bind (take_text runtime_error (length state)) _ _ _ state _
        (Reads-text runtime_error state) (record { at = refl }))

parsed :
    (id payload request : Bytes)
    → 0 < length id
    → length id ≤ 256
    → length request ≤ 128
    → parse_entity (
        (if is_empty request then codes "FSE1" else codes "FSE2")
        ++ (put_sized id ++ (put_token request ++ payload)))
      ≡ some (record { id = id; payload = payload; request_id = request })
unfolding parse_entity starts_with
parsed id payload [] pos le small =
    rw (enough id payload pos, (ReadsAll-message id payload [] pos le small).at) refl
parsed id payload (c ∷ request) pos le small =
    rw
      (
        enough id (put_token (c ∷ request) ++ payload) pos,
        (ReadsAll-message id payload (c ∷ request) pos le small).at,
      )
      refl

-- A message that was written is parsed to its identity, payload and request, in the version with
-- a request as in the one without.
pub parse-entity_message :
    (id payload request out : Bytes)
    → entity_message id payload request ≡ ok out
    → parse_entity out ≡ some (record { id = id; payload = payload; request_id = request })
unfolding entity_message
parse-entity_message id payload request out h =
    let (named, rest) = throw_if-eq-ok (is_empty id || ltb 256 (length id)) _ _ h in
    let (small, done) = throw_if-eq-ok (ltb 128 (length request)) _ _ rest in
    rw (← ok-injective done)
      (parsed id payload request (ground (arith, length-is_empty id)) (ground arith) (ground arith))

-- A state message is parsed to its state and payload.
pub parse-state_message :
    (state payload out : Bytes)
    → state_message state payload ≡ ok out
    → parse_state out ≡ some (record { state = state; payload = payload })
unfolding state_message parse_state get_state starts_with
parse-state_message state payload out h =
    let (fits, done) = throw_if-eq-ok (ltb (2 ^ 32 - 1) (length state)) _ _ h in
    let word : length state < 2 ^ 32 = ground arith in
    rw
      (
        ← ok-injective done,
        le→ltb_false (length (codes "FSS1" ++ (put_uint 4 (length state) ++ (state ++ payload)))) 8
            (simp (length-append, length-put_uint) (omega arith)),
        (ReadsAll-state state payload word).at,
      )
      refl

same_route :
    (type method other name : Bytes)
    → contains_byte b'.' type ≡ false
    → contains_byte b'.' other ≡ false
    → type ++ (b'.' ∷ method) ≡ other ++ (b'.' ∷ name)
    → (type ≡ other) × (method ≡ name)
unfolding contains_byte
same_route [] method [] name p q e = (refl, cc)
same_route [] method (c ∷ other) name p q e = let same : b'.' ≡ c = cc in absurd (ground arith)
same_route (c ∷ type) method [] name p q e = let same : c ≡ b'.' = cc in absurd (ground arith)
same_route (c ∷ type) method (d ∷ other) name p q e =
    let head : c ≡ d = cc in
    let (rest, last) = same_route type method other name (ground arith) (ground arith) cc in
    (ap₂ ◌∷◌ head rest, last)

route_parts :
    (type method out : Bytes)
    → entity_route type method ≡ ok out
    → (contains_byte b'.' type ≡ false) × (type ++ (b'.' ∷ method) ≡ out)
unfolding entity_route has_separator
route_parts type method out h =
    let (good, rest) = throw_if-eq-ok (bad_part type) _ _ h in
    let (_, done) = throw_if-eq-ok (bad_part method) _ _ rest in (ground arith, ok-injective done)

-- Routes do not collide: a route determines the type and the method that it was made of.
pub entity_route-injective :
    (type method other name out : Bytes)
    → entity_route type method ≡ ok out
    → entity_route other name ≡ ok out
    → (type ≡ other) × (method ≡ name)
entity_route-injective type method other name out h k =
    let (p, e) = route_parts type method out h in
    let (q, f) = route_parts other name out k in same_route type method other name p q (e ∙ sym f)

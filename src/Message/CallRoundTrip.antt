-- ===== src/Message/CallRoundTrip.antt =====
-- `parse_entity_call_view` reads what `entity_call_message` wrote.
use fsnet.Base.{
  ◌==◌, ap, inr, inl, drop-append_length, take-append_length, some, length-append, ◌&&◌, ltb, ◌^◌,
  ==_false, ◌%◌, ℕ, ◌≤◌, ◌<◌, ◌≡◌, refl, true, false, not, [], ◌∷◌, ◌++◌, arith, length, is_empty,
}
use fsnet.Base.Errors.{ok-injective, runtime_error, ok}
use fsnet.Base.Tests.{Bool-cases, le→ltb_false}
use fsnet.Base.Texts.{is_empty-length, length-is_empty, starts_with-append, codes, Bytes}
use fsnet.Message.{has_separator, valid_entity_method}
use fsnet.Message.Call.{
  bad_call, call_flags, get_call, short_text, optional_text, get_short, get_optional,
  entity_call_message, parse_entity_call_view,
}
use fsnet.Wire.{get_byte, get_uint, put_uint}
use fsnet.Wire.Reads.{
  ReadsAll-guard, ReadsAll-bind, Reads, Reads-pure, Reads-byte, Reads-uint, ReadsAll,
}
use fsnet.Wire.RoundTrip.{length-put_uint}
use Prim.Native.Nat.{bit_and}

small : (n : ℕ) → n < 256 → n % 256 ≡ n
small n h = omega arith

pub Reads-short :
    (maximum : ℕ) (text : Bytes)
    → 0 < length text
    → length text ≤ maximum
    → maximum < 256
    → Reads (get_short maximum) (short_text text) text
unfolding get_short
Reads-short maximum text pos le byte = record {
  at = λ rest.
      rw
        (
          small (length text) (omega arith),
          ==_false (length text) 0 (omega arith),
          le→ltb_false maximum (length text) le,
          le→ltb_false (length (text ++ rest)) (length text)
              (omega (arith, length-append text rest)),
          take-append_length text rest,
          drop-append_length text rest,
        )
        refl;
}

pub Reads-optional :
    (maximum : ℕ) (text : Bytes)
    → length text ≤ maximum
    → maximum < 256
    → Reads (get_optional (not (is_empty text)) maximum) (optional_text text) text
Reads-optional maximum [] le byte = Reads-pure []
Reads-optional maximum (c ∷ text) le byte = Reads-short maximum (c ∷ text) (omega arith) le byte

-- The two flags are read back as the tests that set them.
call_bits :
    (request expected : Bytes)
    → (call_flags request expected ≤ 3)
      × (not (bit_and (call_flags request expected) 1 == 0) ≡ not (is_empty request))
      × (not (bit_and (call_flags request expected) 2 == 0) ≡ not (is_empty expected))
call_bits [] [] = (omega arith, refl, refl)
call_bits [] (c ∷ expected) = (omega arith, refl, refl)
call_bits (c ∷ request) [] = (omega arith, refl, refl)
call_bits (c ∷ request) (d ∷ expected) = (omega arith, refl, refl)

record Fits (method request expected : Bytes) : Type 0 where
  pub valid : valid_entity_method method ≡ true
  pub method_pos : 0 < length method
  pub method_max : length method ≤ 127
  pub request_max : length request ≤ 128
  pub expected_max : length expected ≤ 127
  pub no_separator : (not (is_empty expected) && has_separator expected) ≡ false

good_call :
    (method request expected : Bytes)
    → bad_call method request expected ≡ false
    → Fits method request expected
unfolding valid_entity_method
good_call method request expected h = record {
  valid = ground arith;
  method_pos = ground (arith, length-is_empty method);
  method_max = ground arith;
  request_max = ground arith;
  expected_max = ground (arith, is_empty-length expected);
  no_separator = ground arith;
}

abbrev call_bytes : ℕ → Bytes → Bytes → Bytes → Bytes → Bytes
call_bytes id method payload request expected =
    put_uint 8 id
    ++ ((call_flags request expected ∷ [])
        ++ (short_text method ++ (optional_text request ++ (optional_text expected ++ payload))))

ReadsAll-call :
    (id : ℕ) (method payload request expected : Bytes)
    → 0 < id
    → id < 2 ^ 64
    → Fits method request expected
    → ReadsAll get_call (call_bytes id method payload request expected) (record {
      id = id;
      method = method;
      payload = payload;
      request_id = request;
      expected_type = expected;
    })
unfolding get_call
ReadsAll-call id method payload request expected pos word fits =
    let (three, with_request, with_type) = call_bits request expected in
    ReadsAll-bind (get_uint runtime_error 8) _ _ _ id _ (Reads-uint _ 8 id (omega arith) word) (
      ReadsAll-guard _ runtime_error _ _ _ (==_false id 0 (omega arith)) (
        ReadsAll-bind (get_byte runtime_error) _ _ _ (call_flags request expected) _
          (Reads-byte _ (call_flags request expected))
          (ReadsAll-guard _ runtime_error _ _ _ (le→ltb_false 3 _ three) (
            ReadsAll-bind (get_short 127) _ _ _ method _
              (Reads-short 127 method fits.method_pos fits.method_max (omega arith))
              (ReadsAll-guard _ runtime_error _ _ _ (ap not fits.valid) (
                rw (with_request, with_type)
                  (ReadsAll-bind (get_optional (not (is_empty request)) 128) _ _ _ request _
                    (Reads-optional 128 request fits.request_max (omega arith))
                    (ReadsAll-bind (get_optional (not (is_empty expected)) 127) _ _ _ expected _
                      (Reads-optional 127 expected fits.expected_max (omega arith))
                      (ReadsAll-guard _ runtime_error _ _ _ fits.no_separator
                        (record { at = refl }))))))))))

length-call_bytes :
    (id : ℕ) (method payload request expected : Bytes)
    → 0 < length method
    → ltb (length (codes "FSE3" ++ call_bytes id method payload request expected)) 15 ≡ false
length-call_bytes id method payload request expected pos =
    le→ltb_false _ 15 (simp (length-append, length-put_uint) (omega (arith, pos)))

-- A frame that was written is parsed to the same call. The identity is a nonzero std::uint64_t.
pub parse-entity_call_message :
    (id : ℕ) (method payload request expected out : Bytes)
    → 0 < id
    → id < 2 ^ 64
    → entity_call_message id method payload request expected ≡ ok out
    → parse_entity_call_view out
      ≡ some (record {
        id = id;
        method = method;
        payload = payload;
        request_id = request;
        expected_type = expected;
      })
unfolding entity_call_message parse_entity_call_view
parse-entity_call_message id method payload request expected out pos word h =
    elim (Bool-cases (bad_call method request expected)) [
      | inl bad ↦ cc (rw bad at h)
      | inr good ↦
          let fits = good_call method request expected good in
          let e = ok-injective (rw good at h) in
          rw
            (
              ← e,
              starts_with-append (codes "FSE3") (call_bytes id method payload request expected),
              length-call_bytes id method payload request expected fits.method_pos,
              (ReadsAll-call id method payload request expected pos word fits).at,
            )
            refl
    ]

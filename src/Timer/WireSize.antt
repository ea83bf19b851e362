-- ===== src/Timer/WireSize.antt =====
-- The bytes of a valid timer state, and `entity_timers_wire_size` as their exact number.
use fsnet.Base.{
  length_error, >>=-eq-ok, refl, ◌||◌, sym, ap, ◌∙◌, err, Error, ltb, is_empty, text_eq_refl, ℕ,
  ◌+◌, ◌≤◌, ◌≡◌, false, not, [], ◌∷◌, ◌++◌, arith, length, length-append, ok, invalid_argument,
  throw_if-eq-ok, Bytes, text_eq, text_eq→eq, codes, le→ltb_false,
}
use fsnet.Base.Int.{to_u64}
use fsnet.Base.Maps.{Map}
use fsnet.Message.{valid_entity_method}
use fsnet.Timer.{
  state_budget, EntityTimer, EntityTimerState, is_invalid, valid, timer_payload_limit,
}
use fsnet.Timer.Encode.{
  encode_entity_timers, entity_timers_wire_size, bad_header, put_entries, put_field, flags,
  put_timer, entries_size,
}
use fsnet.Wire.{put_integer}
use fsnet.Wire.RoundTrip.{length-put_uint}

abbrev pub field_bytes : Bytes → Bytes
field_bytes text = put_integer (length text) ++ text

abbrev pub timer_bytes : EntityTimer → Bytes
timer_bytes t =
    field_bytes t.key
    ++ (field_bytes t.method
        ++ (field_bytes t.payload
            ++ (field_bytes t.generation
                ++ (put_integer (to_u64 t.due_ms)
                    ++ (put_integer (to_u64 t.interval_ms)
                        ++ (put_integer t.remaining ++ (flags t ∷ [])))))))

abbrev pub entries_bytes : Map EntityTimer → Bytes
entries_bytes [] = []
entries_bytes ((key, t) ∷ entries) = timer_bytes t ++ entries_bytes entries

abbrev pub state_bytes : EntityTimerState → Bytes
state_bytes state =
    codes "FST1"
    ++ (put_integer state.sequence
        ++ (field_bytes state.token
            ++ (put_integer (length state.entries) ++ entries_bytes state.entries)))

-- Each timer stands under its own key and is valid.
abbrev pub AreTimers : Map EntityTimer → Type 0
AreTimers [] = Unit
AreTimers ((key, t) ∷ entries) = (key ≡ t.key) × (is_invalid t ≡ false) × AreTimers entries

pub record Lengths (t : EntityTimer) : Type 0 where
  pub key : length t.key ≤ 128
  pub method : length t.method ≤ 127
  pub payload : length t.payload ≤ timer_payload_limit
  pub generation : length t.generation ≤ 64

pub valid-Lengths : (t : EntityTimer) → is_invalid t ≡ false → Lengths t
unfolding is_invalid valid_entity_method
valid-Lengths t v = ground arith

put_field_fits :
    (text : Bytes) → length text ≤ timer_payload_limit → put_field text ≡ ok (field_bytes text)
unfolding put_field
put_field_fits text h = rw (le→ltb_false timer_payload_limit (length text) h)

length-field_bytes : (text : Bytes) → length (field_bytes text) ≡ 8 + length text
length-field_bytes text =
    omega (arith, length-append (put_integer (length text)) text, length-put_uint 8 (length text))

pub put_timer-timer_bytes :
    (t : EntityTimer) → is_invalid t ≡ false → put_timer t ≡ ok (timer_bytes t)
unfolding put_timer valid
put_timer-timer_bytes t v =
    let l = valid-Lengths t v in
    rw (
      v,
      put_field_fits t.key (omega (arith, l.key)),
      put_field_fits t.method (omega (arith, l.method)),
      put_field_fits t.payload l.payload,
      put_field_fits t.generation (omega (arith, l.generation)),
    )

pub length-timer_bytes :
    (t : EntityTimer)
    → length (timer_bytes t)
      ≡ 57 + length t.key + length t.method + length t.payload + length t.generation
length-timer_bytes t = simp (length-append, length-put_uint) (omega arith)

-- The loop of the size computation checks each entry and adds up its bytes.
entries_size_counts :
    (entries : Map EntityTimer) (size n : ℕ)
    → entries_size entries size ≡ ok n
    → AreTimers entries × (n ≡ size + length (entries_bytes entries))
unfolding entries_size valid
entries_size_counts [] size n h = (tt, ground arith)
entries_size_counts ((key, t) ∷ entries) size n h =
    let (k, rest) = throw_if-eq-ok (not (text_eq key t.key)) invalid_argument _ h in
    let (v, more) = throw_if-eq-ok (is_invalid t) invalid_argument _ rest in
    let (all, e) = entries_size_counts entries _ n more in
    (
      (text_eq→eq key t.key (ground arith), v, all),
      omega (arith, e, length-append (timer_bytes t) (entries_bytes entries), length-timer_bytes t),
    )

put_entries-entries_bytes :
    (entries : Map EntityTimer)
    → AreTimers entries
    → put_entries entries ≡ ok (entries_bytes entries)
unfolding put_entries
put_entries-entries_bytes [] all = refl
put_entries-entries_bytes ((key, t) ∷ entries) (k, v, all) =
    rw (k, text_eq_refl t.key, put_timer-timer_bytes t v, put_entries-entries_bytes entries all)

-- What a state meets whose size is computed without an exception.
pub record IsState (state : EntityTimerState) : Type 0 where
  pub count : length state.entries ≤ 1024
  pub token : length state.token ≤ 64
  pub header : bad_header state.sequence state.token (not (is_empty state.entries)) ≡ false
  pub timers : AreTimers state.entries
  pub budget : length (state_bytes state) ≤ state_budget

length-state_bytes :
    (state : EntityTimerState)
    → length (state_bytes state) ≡ 28 + length state.token + length (entries_bytes state.entries)
length-state_bytes state = simp (length-append, length-put_uint) (omega arith)

pub wire_size-IsState :
    (state : EntityTimerState) (n : ℕ)
    → entity_timers_wire_size state ≡ ok n
    → IsState state × (n ≡ length (state_bytes state))
unfolding entity_timers_wire_size
wire_size-IsState state n h =
    let (head, rest) =
      throw_if-eq-ok
        (ltb 1024 (length state.entries)
          || ltb 64 (length state.token)
          || bad_header state.sequence state.token (not (is_empty state.entries)))
        invalid_argument _ h in
    let (size, counted, more) =
      >>=-eq-ok (entries_size state.entries (28 + length state.token)) _ rest in
    let (all, sum) = entries_size_counts state.entries _ size counted in
    let (fits, done) = throw_if-eq-ok (ltb state_budget size) length_error _ more in
    let total : size ≡ length (state_bytes state) = sum ∙ sym (length-state_bytes state) in
    (
      record {
        count = ground arith;
        token = ground arith;
        header = ground arith;
        timers = all;
        budget = ground arith;
      },
      ground arith,
    )

pub encode-IsState :
    (state : EntityTimerState)
    → entity_timers_wire_size state ≡ ok (length (state_bytes state))
    → IsState state
    → encode_entity_timers state ≡ ok (state_bytes state)
unfolding encode_entity_timers
encode-IsState state sized s =
    rw
      (
        sized,
        put_field_fits state.token (omega (arith, s.token)),
        put_entries-entries_bytes state.entries s.timers,
      )
      (rw (le→ltb_false state_budget (length (state_bytes state)) s.budget))

abbrev pub SizesRecord : EntityTimerState → Type 0
SizesRecord state =
    ((n : ℕ)
      → entity_timers_wire_size state ≡ ok n
      → (out : Bytes) × (encode_entity_timers state ≡ ok out) × (length out ≡ n))
    × ((e : Error) → entity_timers_wire_size state ≡ err e → encode_entity_timers state ≡ err e)

-- `entity_timers_wire_size` computes, without building it, the exact length of the record that
-- `encode_entity_timers` returns; and encoding throws wherever the size computation throws, the
-- same exception.
pub encode-wire_size : (state : EntityTimerState) → SizesRecord state
encode-wire_size state = (sized, refused)
  where
    sized :
        (n : ℕ)
        → entity_timers_wire_size state ≡ ok n
        → (out : Bytes) × (encode_entity_timers state ≡ ok out) × (length out ≡ n)
    sized n h =
        let (s, total) = wire_size-IsState state n h in
        (state_bytes state, encode-IsState state (h ∙ ap ok total) s, sym total)

    refused :
        (e : Error) → entity_timers_wire_size state ≡ err e → encode_entity_timers state ≡ err e
    refused e h = unfold encode_entity_timers in rw h

-- ===== src/Message/Call.antt =====
-- The frame FSE3 of an entity call: `entity_call_message` and `parse_entity_call_view`.
use fsnet.Base.{
  ℕ, ◌%◌, Bool, true, false, not, ◌&&◌, ◌||◌, [], ◌∷◌, ◌++◌, ltb, ◌==◌, Option, none, if◌then◌else◌,
  length, is_empty, Bytes, codes, starts_with, drop, take, Outcome, ok, err, invalid_argument,
  runtime_error,
}
use fsnet.Message.{has_separator, valid_entity_method}
use fsnet.Wire.{
  Reader, ◌>>=◌, ◌>>◌, pure, throw_if, get_uint, put_uint, get_byte, take_rest, to_option,
}
use Prim.Native.Nat.{bit_or, bit_and}

-- a length byte and the text
abbrev pub short_text : Bytes → Bytes
short_text text = (length text % 256) ∷ text

abbrev pub optional_text : Bytes → Bytes
optional_text [] = []
optional_text (c ∷ text) = short_text (c ∷ text)

abbrev pub call_flags : Bytes → Bytes → ℕ
call_flags request expected =
    bit_or (if is_empty request then 0 else 1) (if is_empty expected then 0 else 2)

abbrev pub bad_call : Bytes → Bytes → Bytes → Bool
bad_call method request expected =
    not (valid_entity_method method)
    || ltb 128 (length request)
    || (not (is_empty expected) && (ltb 127 (length expected) || has_separator expected))

unfoldable pub entity_call_message : ℕ → Bytes → Bytes → Bytes → Bytes → Outcome Bytes
entity_call_message id method payload request expected =
    if bad_call method request expected
    then err invalid_argument
    else ok (
        codes "FSE3"
        ++ (put_uint 8 id
            ++ ((call_flags request expected ∷ [])
                ++ (short_text method
                    ++ (optional_text request ++ (optional_text expected ++ payload))))))

pub record EntityCallView : Type 0 where
  pub id : ℕ
  pub method : Bytes
  pub payload : Bytes
  pub request_id : Bytes
  pub expected_type : Bytes

-- The lambda `text`.
unfoldable pub get_short : ℕ → Reader Bytes
get_short maximum [] = err runtime_error
get_short maximum (n ∷ input) =
    if n == 0 || ltb maximum n || ltb (length input) n
    then err runtime_error
    else ok (take n input, drop n input)

-- a text that is there if its flag is set
abbrev pub get_optional : Bool → ℕ → Reader Bytes
get_optional true maximum = get_short maximum
get_optional false maximum = pure []

-- Every `return {}` is the one error of this reader.
unfoldable pub get_call : Reader EntityCallView
unfolding get_short
get_call = do
  id ← get_uint runtime_error 8
  throw_if (id == 0) runtime_error
  flags ← get_byte runtime_error
  throw_if (ltb 3 flags) runtime_error
  method ← get_short 127
  throw_if (not (valid_entity_method method)) runtime_error
  request ← get_optional (not (bit_and flags 1 == 0)) 128
  expected ← get_optional (not (bit_and flags 2 == 0)) 127
  throw_if (not (bit_and flags 2 == 0) && has_separator expected) runtime_error
  payload ← take_rest
  pure (record {
    id = id;
    method = method;
    payload = payload;
    request_id = request;
    expected_type = expected;
  })

unfoldable pub parse_entity_call_view : Bytes → Option EntityCallView
unfolding get_call
parse_entity_call_view input =
    if ltb (length input) 15 || not (starts_with input (codes "FSE3"))
    then none
    else to_option (get_call (drop 4 input))

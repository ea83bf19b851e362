-- ===== src/Message/Parse.antt =====
-- The parsers of the envelopes FSE1, FSE2 and FSS1 of include/fsnet/entity_message.hpp. Every
-- `return {}` is the one error of their readers.
use fsnet.Base.{
  ℕ, Bool, true, false, not, ◌&&◌, ◌||◌, [], ltb, ◌==◌, Option, none, if◌then◌else◌, length, Bytes,
  codes, starts_with, drop, runtime_error,
}
use fsnet.Message.Envelope.{EntityMessage, StateMessage}
use fsnet.Wire.{
  Reader, ◌>>=◌, ◌>>◌, throw_if, pure, get_uint, take_text, take_rest, to_option, get_number,
}

-- the length, its check and the text
unfoldable pub get_sized : ℕ → Reader Bytes
get_sized maximum = do
  n ← get_uint runtime_error 2
  throw_if (n == 0 || ltb maximum n) runtime_error
  take_text runtime_error n

abbrev pub get_token : Bool → Reader Bytes
get_token true = get_sized 128
get_token false = pure []

unfoldable pub get_message : Bool → Reader EntityMessage
get_message with_request = do
  id ← get_sized 256
  request ← get_token with_request
  payload ← take_rest
  pure (record { id = id; payload = payload; request_id = request })

unfoldable pub parse_entity : Bytes → Option EntityMessage
unfolding get_message get_sized
parse_entity input =
    if ltb (length input) 6
      || (not (starts_with input (codes "FSE1")) && not (starts_with input (codes "FSE2")))
    then none
    else to_option (get_message (starts_with input (codes "FSE2")) (drop 4 input))

unfoldable pub get_state : Reader StateMessage
get_state = do
  n ← get_number
  state ← take_text runtime_error n
  payload ← take_rest
  pure (record { state = state; payload = payload })

unfoldable pub parse_state : Bytes → Option StateMessage
unfolding get_state
parse_state input =
    if ltb (length input) 8 || not (starts_with input (codes "FSS1"))
    then none
    else to_option (get_state (drop 4 input))

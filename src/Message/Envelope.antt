-- ===== src/Message/Envelope.antt =====
-- The writers of the envelopes FSE1, FSE2 and FSS1 and the routes of include/fsnet/entity_message.hpp.
use fsnet.Base.{
  ◌-◌, ◌^◌, Bool, ◌||◌, [], ◌∷◌, ◌++◌, ltb, if◌then◌else◌, length, is_empty, Bytes, codes, Outcome,
  ok, invalid_argument, length_error,
}
use fsnet.Base.Errors.{◌>>◌, throw_if}
use fsnet.Message.{has_separator}
use fsnet.Wire.{put_uint}

abbrev pub bad_part : Bytes → Bool
bad_part part = is_empty part || ltb 127 (length part) || has_separator part

unfoldable pub entity_route : Bytes → Bytes → Outcome Bytes
entity_route type method = do
  throw_if (bad_part type) invalid_argument
  throw_if (bad_part method) invalid_argument
  ok (type ++ (b'.' ∷ method))

-- two length bytes and the text
abbrev pub put_sized : Bytes → Bytes
put_sized text = put_uint 2 (length text) ++ text

abbrev pub put_token : Bytes → Bytes
put_token [] = []
put_token (c ∷ request) = put_sized (c ∷ request)

unfoldable pub entity_message : Bytes → Bytes → Bytes → Outcome Bytes
entity_message id payload request = do
  throw_if (is_empty id || ltb 256 (length id)) invalid_argument
  throw_if (ltb 128 (length request)) invalid_argument
  ok (
      (if is_empty request then codes "FSE1" else codes "FSE2")
      ++ (put_sized id ++ (put_token request ++ payload)))

pub record EntityMessage : Type 0 where
  pub id : Bytes
  pub payload : Bytes
  pub request_id : Bytes

unfoldable pub state_message : Bytes → Bytes → Outcome Bytes
state_message state payload = do
  throw_if (ltb (2 ^ 32 - 1) (length state)) length_error
  ok (codes "FSS1" ++ (put_uint 4 (length state) ++ (state ++ payload)))

pub record StateMessage : Type 0 where
  pub state : Bytes
  pub payload : Bytes

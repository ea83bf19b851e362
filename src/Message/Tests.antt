-- ===== src/Message/Tests.antt =====
-- Frames at concrete inputs.
use fsnet.Base.{none, ◌∷◌, err, contains_byte, ◌++◌, ◌≡◌, refl, [], some, arith, ok, codes, Bytes}
use fsnet.Base.Errors.{invalid_argument}
use fsnet.Base.Texts.{starts_with}
use fsnet.Message.{has_separator, valid_entity_method}
use fsnet.Message.Call.{entity_call_message, parse_entity_call_view}
use fsnet.Message.CallRoundTrip.{parse-entity_call_message}
use fsnet.Message.Envelope.{entity_message, entity_route, state_message}
use fsnet.Wire.{get_byte, get_loop, put_uint, get_uint}

abbrev call_frame : Bytes
call_frame =
    codes "FSE3"
    ++ (0 ∷ 0 ∷ 0 ∷ 0 ∷ 0 ∷ 0 ∷ 0 ∷ 7 ∷ 2 ∷ 4 ∷ codes "move" ++ (3 ∷ codes "npc" ++ codes "xy"))

call_written : entity_call_message 7 (codes "move") (codes "xy") [] (codes "npc") ≡ ok call_frame
unfolding entity_call_message valid_entity_method has_separator contains_byte put_uint
call_written = refl

-- An empty method name is refused.
call_refused : entity_call_message 7 [] (codes "xy") [] [] ≡ err invalid_argument
unfolding entity_call_message valid_entity_method
call_refused = refl

-- A frame whose flags are out of range is not parsed.
call_not_parsed :
    parse_entity_call_view (codes "FSE3" ++ (0 ∷ 0 ∷ 0 ∷ 0 ∷ 0 ∷ 0 ∷ 0 ∷ 7 ∷ 4 ∷ 4 ∷ codes "move"))
    ≡ none
unfolding parse_entity_call_view get_uint get_loop get_byte starts_with
call_not_parsed = refl

parse-entity_call_message_example :
    parse_entity_call_view call_frame
    ≡ some (record {
      id = 7;
      method = codes "move";
      payload = codes "xy";
      request_id = [];
      expected_type = codes "npc";
    })
parse-entity_call_message_example =
    parse-entity_call_message 7 (codes "move") (codes "xy") [] (codes "npc") call_frame
      (omega arith) (omega arith) call_written

message_written :
    entity_message (codes "a1") (codes "xy") (codes "r9")
    ≡ ok (codes "FSE2" ++ (0 ∷ 2 ∷ codes "a1" ++ (0 ∷ 2 ∷ codes "r9" ++ codes "xy")))
unfolding entity_message put_uint
message_written = refl

state_written :
    state_message (codes "hp") (codes "xy") ≡ ok (codes "FSS1" ++ (0 ∷ 0 ∷ 0 ∷ 2 ∷ codes "hpxy"))
unfolding state_message put_uint
state_written = refl

route_made : entity_route (codes "npc") (codes "move") ≡ ok (codes "npc.move")
unfolding entity_route has_separator contains_byte
route_made = refl

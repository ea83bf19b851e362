-- ===== src/Timer/Tests.antt =====
-- Timers at concrete inputs: tests of the definitions, and the theorems where their hypotheses hold.
use fsnet.Base.{
  ◌⊎◌, Bool, ◌≡◌, refl, ◌≤◌, ◌<◌, ◌+◌, true, false, [], ◌∷◌, ok, err, invalid_argument, arith,
  Bytes, codes, text_eq, ◌++◌,
}
use fsnet.Base.Int.{pos}
use fsnet.Message.{valid_entity_method}
use fsnet.Timer.{
  EntityTimer, EntityTimerState, EntityTimerEvent, is_invalid, valid, advance_entity_timer,
  advance_expired, reschedule,
}
use fsnet.Timer.Decides.{Decided, advance_decides}
use fsnet.Timer.Decode.{decode_entity_timers}
use fsnet.Timer.Encode.{
  put_timer, encode_entity_timers, entity_timers_wire_size, encode_timer_event, entries_size,
  put_entries, put_field,
}
use fsnet.Timer.Fires.{Rearmed, advance_rearms}
use fsnet.Timer.Lifetime.{Fires, start, again, Fires-bounded}
use fsnet.Timer.Records.{decode-encode}
use fsnet.Timer.Refuses.{IsValid, Expired, advance_refuses}
use fsnet.Timer.WireSize.{SizesRecord, timer_bytes, encode-wire_size, state_bytes}
use fsnet.Wire.{put_uint, put_integer}

-- Every 10 ms from 100 on, three callbacks.
abbrev pulse : EntityTimer
pulse = record {
  key = codes "pulse";
  method = codes "on_pulse";
  payload = [];
  generation = codes "g1";
  due_ms = pos 100;
  interval_ms = pos 10;
  remaining = 3;
  missed = 0;
  fixed_delay = false;
}

abbrev pulses : EntityTimerState
pulses = record { sequence = 1; token = codes "t"; entries = (codes "pulse", pulse) ∷ [] }

pulse_valid : is_invalid pulse ≡ false
unfolding is_invalid valid_entity_method
pulse_valid = refl

-- 137 is past four of its times; the next one is 140.
pulse_late :
    advance_entity_timer pulse (pos 137)
    ≡ ok (true, record pulse { due_ms = pos 140; remaining = 2 })
unfolding advance_entity_timer advance_expired reschedule is_invalid valid_entity_method
pulse_late = refl

pulse_early : advance_entity_timer pulse (pos 99) ≡ err invalid_argument
unfolding advance_entity_timer is_invalid valid_entity_method
pulse_early = refl

advance_rearms_example :
    (is_invalid pulse ≡ false)
    × Rearmed pulse (record pulse { due_ms = pos 140; remaining = 2 }) 137
advance_rearms_example = advance_rearms pulse _ 137 (omega arith) pulse_late

advance_decides_example : Decided pulse 137
advance_decides_example = advance_decides pulse 137 pulse_valid (omega arith)

advance_refuses_example :
    (IsValid pulse
      × Expired pulse (pos 99)
      × ((fires : Bool) × (u : EntityTimer) × (advance_entity_timer pulse (pos 99)
            ≡ ok (fires, u))))
    ⊎ (¬ (IsValid pulse × Expired pulse (pos 99))
        × (advance_entity_timer pulse (pos 99) ≡ err invalid_argument))
advance_refuses_example = advance_refuses pulse (pos 99)

pulse_fired : Fires pulse 1 (record pulse { due_ms = pos 140; remaining = 2 })
pulse_fired = again 137 start (omega arith) pulse_late

Fires-bounded_example : (2 + 1 ≡ 3) × (0 < 2) × (100 + 1 ≤ 140)
Fires-bounded_example = Fires-bounded {t = pulse} (omega arith) pulse_fired

encode-wire_size_example : SizesRecord pulses
encode-wire_size_example = encode-wire_size pulses

pulses_encoded : encode_entity_timers pulses ≡ ok (state_bytes pulses)
unfolding encode_entity_timers entity_timers_wire_size entries_size put_entries put_timer put_field
    is_invalid valid_entity_method valid put_uint text_eq
pulses_encoded = refl

decode-encode_example : decode_entity_timers (state_bytes pulses) ≡ ok pulses
decode-encode_example =
    decode-encode pulses (state_bytes pulses) (omega arith) tt (omega arith) pulses_encoded

abbrev fired : EntityTimerEvent
fired = record { timer = pulse; fired_ms = pos 137 }

abbrev fired_bytes : Bytes
fired_bytes = codes "FTE1" ++ (timer_bytes pulse ++ put_integer 137)

fired_encoded : encode_timer_event fired ≡ ok fired_bytes
unfolding encode_timer_event put_timer put_field is_invalid valid_entity_method valid put_uint
fired_encoded = refl

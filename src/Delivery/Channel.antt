-- ===== src/Delivery/Channel.antt =====
-- `channel_key` of src/entity_delivery_state.cpp.
use fsnet.Base.{refl, [], ◌∷◌, arith, err, ◌≤◌, length, ◌≡◌, ◌==◌, Bytes, Outcome, invalid_argument}
use fsnet.Base.Errors.{ok}
use fsnet.EntityKey.{decode_entity_key}
use fsnet.EntityKey.RoundTrip.{decode_entity_key-length}
use fsnet.Wire.{Reader, ◌>>=◌, ◌>>◌, throw_if, pure, get_integer, throw_unless_empty, value_of}
use fsnet.Wire.Lengths.{get_uint-length, guard_inv, bind_inv}

unfoldable pub get_channel : Reader (Unit {0})
get_channel = do
  key ← decode_entity_key
  epoch ← get_integer
  throw_if (epoch == 0) invalid_argument
  throw_unless_empty invalid_argument
  pure tt

unfoldable pub channel_key : Bytes → Outcome (Unit {0})
unfolding get_channel
channel_key key = value_of (get_channel key)

-- A channel's key is never longer than the decoder allows.
pub channel_key-length : (key : Bytes) → channel_key key ≡ ok tt → length key ≤ 394
unfolding channel_key get_channel
channel_key-length key h = by (get_channel key) refl
  where
    empty :
        (input : Bytes) {u : Unit {0}} {rest : Bytes}
        → throw_unless_empty invalid_argument input ≡ ok (u, rest)
        → length input ≡ 0
    empty [] e = refl
    empty (b ∷ input) e = cc

    by : (r : Outcome (Unit {0} × Bytes)) → get_channel key ≡ r → length key ≤ 394
    by (err e) same = cc (rw same at h)
    by (ok (u, rest)) same =
        let ((type, id), in1, e1, h1) = bind_inv decode_entity_key _ key same in
        let (epoch, in2, e2, h2) = bind_inv get_integer _ in1 h1 in
        let (_, h3) = guard_inv (epoch == 0) invalid_argument _ in2 h2 in
        let (_, in3, e3, _) = bind_inv (throw_unless_empty invalid_argument) _ in2 h3 in
        omega (
          arith,
          decode_entity_key-length key type id in1 e1,
          get_uint-length _ 8 in1 e2,
          empty in2 e3,
        )

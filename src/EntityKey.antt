-- ===== src/EntityKey.antt =====
-- src/replication_wire.cpp: the key of an entity by type and identity.
pub mod RoundTrip
use fsnet.Base.{
  ℕ, Bool, not, ◌||◌, [], ◌∷◌, ◌++◌, ltb, length, is_empty, Bytes, Outcome, ok, err, if◌then◌else◌,
  invalid_argument,
}
use fsnet.Message.Envelope.{bad_part}
use fsnet.Wire.{Reader, ◌>>=◌, ◌>>◌, throw_if, pure, put_uint, get_uint, take_text}

-- The condition under which `validate_key` throws.
abbrev pub bad_key : Bytes → Bytes → Bool
bad_key type id = bad_part type || is_empty id || ltb 256 (length id)

abbrev pub key_bytes : Bytes → Bytes → Bytes
key_bytes type id = put_uint 1 (length type) ++ (type ++ (put_uint 2 (length id) ++ id))

unfoldable pub encode_entity_key : Bytes → Bytes → Outcome Bytes
encode_entity_key type id = if bad_key type id then err invalid_argument else ok (key_bytes type id)

-- `key_view` and `decode_entity_key`
unfoldable pub decode_entity_key : Reader (Bytes × Bytes)
decode_entity_key = do
  n ← get_uint invalid_argument 1
  type ← take_text invalid_argument n
  m ← get_uint invalid_argument 2
  id ← take_text invalid_argument m
  throw_if (bad_key type id) invalid_argument
  pure (type, id)

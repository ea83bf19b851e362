-- ===== src/ReplicationWire/Decode.antt =====
-- The readers of src/replication_wire.cpp.
use fsnet.Base.{
  false, true, not, ◌||◌, length, ◌*◌, if◌then◌else◌, ◌==◌, Option, Bytes, Bool, none, some,
}
use fsnet.Base.Errors.{err, Outcome, invalid_argument}
use fsnet.Base.Lists.{drop}
use fsnet.Base.Tests.{ltb}
use fsnet.Base.Texts.{codes, starts_with}
use fsnet.AttributeUpdate.{AttributeUpdate}
use fsnet.AttributeUpdate.Decode.{decode_attributes}
use fsnet.Delivery.{internal}
use fsnet.EntityKey.{decode_entity_key}
use fsnet.ReplicationWire.{ReplicationUpdateHeader, ReplicationPacket, ReplicationPacketView}
use fsnet.Wire.{
  call, take_rest, value_of, throw_unless_empty, get_uint, Reader, ◌>>=◌, ◌>>◌, throw_if, pure,
}

-- `prefix` after its check of the size and of the magic
unfoldable pub get_prefix : Reader ReplicationPacketView
get_prefix = do
  status ← get_uint invalid_argument 1
  throw_if (ltb internal status) invalid_argument
  subscription ← get_uint invalid_argument 8
  throw_if (subscription == 0) invalid_argument
  lease_ms ← get_uint invalid_argument 4
  (type, id) ← decode_entity_key
  pure (record {
    subscription = subscription;
    type = type;
    id = id;
    status = status;
    lease_ms = lease_ms;
    update = none;
  })

unfoldable pub prefix : Reader ReplicationPacketView
unfolding get_prefix
prefix input =
    if ltb (1024 * 1024) (length input) || not (starts_with input (codes "FSN1"))
    then err invalid_argument
    else get_prefix (drop 4 input)

-- the attributes of a packet whose status is `Status::ok`, else nothing may be left
unfoldable pub get_update : Bool → Reader (Option AttributeUpdate)
get_update false = do throw_unless_empty invalid_argument; pure none
get_update true = do rest ← take_rest; update ← call (decode_attributes rest); pure (some update)

unfoldable pub get_packet : Reader ReplicationPacket
unfolding prefix get_update
get_packet = do
  header ← prefix
  update ← get_update (header.status == 0)
  pure (record {
    subscription = header.subscription;
    type = header.type;
    id = header.id;
    status = header.status;
    lease_ms = header.lease_ms;
    update = update;
  })

unfoldable pub decode_replication_packet : Bytes → Outcome ReplicationPacket
unfolding get_packet
decode_replication_packet input = value_of (get_packet input)

abbrev pub header_of : Option AttributeUpdate → Option ReplicationUpdateHeader
header_of none = none
header_of (some u) = some (record { base = u.base; revision = u.revision; snapshot = u.snapshot })

unfoldable pub decode_replication_packet_view : Bytes → Outcome ReplicationPacketView
unfolding prefix get_update
decode_replication_packet_view input = value_of (
    (do
      header ← prefix
      update ← get_update (header.status == 0)
      pure (record header { update = header_of update }))
      input)

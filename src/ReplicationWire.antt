-- ===== src/ReplicationWire.antt =====
-- src/replication_wire.cpp with include/fsnet/replication_wire.hpp: the packets FSN1 that carry the
-- updates of a subscription.
pub mod Decode
pub mod RoundTrip
pub mod Remap
mod Tests
use fsnet.Base.Errors.{◌>>=◌}
use fsnet.Base.{
  false, true, [], take, not, ◌-◌, length, ◌||◌, [], ◌==◌, ◌++◌, if◌then◌else◌, Option, Bool, ℕ,
  ◌+◌, ◌*◌, none, some,
}
use fsnet.Base.Errors.{invalid_argument, err, ok, Outcome}
use fsnet.Base.Lists.{drop}
use fsnet.Base.Tests.{ltb}
use fsnet.Base.Texts.{text_eq, codes, Bytes}
use fsnet.AttributeUpdate.{AttributeUpdate}
use fsnet.AttributeUpdate.Decode.{decode_attributes}
use fsnet.AttributeUpdate.Encode.{encode_attributes}
use fsnet.EntityKey.{encode_entity_key, decode_entity_key}
use fsnet.Wire.{put_uint}

pub record ReplicationPacket : Type 0 where
  pub subscription : ℕ
  pub type : Bytes
  pub id : Bytes
  pub status : ℕ
  pub lease_ms : ℕ
  pub update : Option AttributeUpdate

pub record ReplicationUpdateHeader : Type 0 where
  pub base : ℕ
  pub revision : ℕ
  pub snapshot : Bool

pub record ReplicationPacketView : Type 0 where
  pub subscription : ℕ
  pub type : Bytes
  pub id : Bytes
  pub status : ℕ
  pub lease_ms : ℕ
  pub update : Option ReplicationUpdateHeader

-- the last part of `encode_replication_packet`, by whether the status is `Status::ok`
unfoldable pub put_update : Bool → Option AttributeUpdate → Outcome Bytes
put_update false update = ok []
put_update true none = err invalid_argument
put_update true (some update) = encode_attributes update

abbrev pub packet_prefix : ReplicationPacket → Bytes
packet_prefix p =
    codes "FSN1" ++ (put_uint 1 p.status ++ (put_uint 8 p.subscription ++ put_uint 4 p.lease_ms))

unfoldable pub encode_replication_packet : ReplicationPacket → Outcome Bytes
unfolding put_update
encode_replication_packet p = do
  key ← encode_entity_key p.type p.id
  update ← put_update (p.status == 0) p.update
  ok (packet_prefix p ++ (key ++ update))

unfoldable pub remap_replication_subscription : Bytes → ℕ → ℕ → Outcome Bytes
remap_replication_subscription packet id prefix_bytes =
    if id == 0
      || ltb (length packet) prefix_bytes
      || ltb (length packet - prefix_bytes) 17
      || not (text_eq (take 4 (drop prefix_bytes packet)) (codes "FSN1"))
    then err invalid_argument
    else ok (take (prefix_bytes + 5) packet ++ (put_uint 8 id ++ drop (prefix_bytes + 13) packet))

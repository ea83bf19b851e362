-- ===== src/ReplicationWire/Tests.antt =====
-- A packet of src/replication_wire.cpp at concrete inputs.
use fsnet.Base.{refl, ◌≡◌, arith, some, ◌∷◌, ◌++◌}
use fsnet.Base.Errors.{ok}
use fsnet.Base.Texts.{contains_byte, Bytes, codes}
use fsnet.AttributeUpdate.Tests.{sample, sample_bytes, sample_encoded, sample-Fits}
use fsnet.EntityKey.{encode_entity_key}
use fsnet.Message.{has_separator}
use fsnet.ReplicationWire.{
  ReplicationPacket, encode_replication_packet, remap_replication_subscription,
}
use fsnet.ReplicationWire.Decode.{decode_replication_packet}
use fsnet.ReplicationWire.Remap.{remap-encode_replication_packet}
use fsnet.ReplicationWire.RoundTrip.{decode-encode_replication_packet, PacketFits}
use fsnet.Wire.{put_uint}

abbrev packet : ReplicationPacket
packet = record {
  subscription = 258;
  type = codes "npc";
  id = codes "a1";
  status = 0;
  lease_ms = 5000;
  update = some sample;
}

abbrev packet_bytes : Bytes
packet_bytes =
    codes "FSN1"
    ++ (0 ∷ 0 ∷ 0 ∷ 0 ∷ 0 ∷ 0 ∷ 0 ∷ 1 ∷ 2 ∷ 0 ∷ 0 ∷ 19 ∷ 136 ∷ 3 ∷ codes "npc"
        ++ (0 ∷ 2 ∷ codes "a1" ++ sample_bytes))

packet_encoded : encode_replication_packet packet ≡ ok packet_bytes
unfolding encode_replication_packet encode_entity_key put_uint has_separator contains_byte
packet_encoded = rw sample_encoded refl

packet-Fits : PacketFits packet
packet-Fits = record {
  status = omega arith;
  subscribed = omega arith;
  subscription = omega arith;
  lease_ms = omega arith;
  update = sample-Fits;
}

decode-encode_replication_packet_example : decode_replication_packet packet_bytes ≡ ok packet
decode-encode_replication_packet_example =
    decode-encode_replication_packet packet packet_bytes packet-Fits (omega arith) packet_encoded

remap-encode_replication_packet_example :
    (other : Bytes) × (encode_replication_packet (record packet { subscription = 7 }) ≡ ok other)
    × (remap_replication_subscription (codes "RPC" ++ packet_bytes) 7 3 ≡ ok (codes "RPC" ++ other))
remap-encode_replication_packet_example =
    remap-encode_replication_packet packet (codes "RPC") packet_bytes 7 (omega arith) packet_encoded

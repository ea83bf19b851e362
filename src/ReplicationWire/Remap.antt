-- ===== src/ReplicationWire/Remap.antt =====
-- remap_replication_subscription of src/replication_wire.cpp gives the packet of another subscription.
use fsnet.Base.{◌-◌, false, drop-append_length, arith, ◌==◌, refl, ok, ◌++◌, ◌≡◌, ◌<◌, length, ℕ}
use fsnet.Base.Errors.{ok-subst, >>=-eq-ok}
use fsnet.Base.Lists.{drop_after, take_after, length-append}
use fsnet.Base.Tests.{le→ltb_false, ltb, ==_false}
use fsnet.Base.Texts.{codes, Bytes, text_eq}
use fsnet.EntityKey.{encode_entity_key}
use fsnet.ReplicationWire.{
  ReplicationPacket, put_update, packet_prefix, encode_replication_packet,
  remap_replication_subscription,
}
use fsnet.Wire.{put_uint}
use mathlib.Core.List.{append_assoc}

remapped :
    (p : ReplicationPacket) (frame rest : Bytes) (id : ℕ)
    → 0 < id
    → remap_replication_subscription (frame ++ (packet_prefix p ++ rest)) id (length frame)
      ≡ ok (frame ++ (packet_prefix (record p { subscription = id }) ++ rest))
unfolding remap_replication_subscription put_uint text_eq
remapped p frame rest id pos =
    let text = packet_prefix p ++ rest in
    let front = codes "FSN1" ++ put_uint 1 p.status in
    let tail = put_uint 4 p.lease_ms ++ rest in
    let nonzero : (id == 0) ≡ false = ==_false id 0 (λ e. omega (arith, e, pos)) in
    let inside : ltb (length (frame ++ text)) (length frame) ≡ false =
      le→ltb_false _ _ (omega (arith, length-append frame text)) in
    let room : ltb (length (frame ++ text) - length frame) 17 ≡ false =
      le→ltb_false _ _ (omega (arith, length-append frame text)) in
    rw
      (
        nonzero,
        inside,
        room,
        drop-append_length frame text,
        take_after frame text 5,
        drop_after frame text 13,
        append_assoc frame front (put_uint 8 id ++ tail),
      )
      refl

-- Remapping an encoded packet, at any offset of a frame, gives the frame around the encoding of the
-- packet with the other subscription, which is not 0.
pub remap-encode_replication_packet :
    (p : ReplicationPacket) (frame out : Bytes) (id : ℕ)
    → 0 < id
    → encode_replication_packet p ≡ ok out
    → (other : Bytes) × (encode_replication_packet (record p { subscription = id }) ≡ ok other)
      × (remap_replication_subscription (frame ++ out) id (length frame) ≡ ok (frame ++ other))
unfolding encode_replication_packet
remap-encode_replication_packet p frame out id pos h =
    let (key, e1, h1) = >>=-eq-ok (encode_entity_key p.type p.id) _ h in
    let (update, e2, same) = >>=-eq-ok (put_update (p.status == 0) p.update) _ h1 in
    (
      packet_prefix (record p { subscription = id }) ++ (key ++ update),
      rw (e1, e2) refl,
      ok-subst
          (λ x.
            remap_replication_subscription (frame ++ x) id (length frame)
            ≡ ok (frame ++ (packet_prefix (record p { subscription = id }) ++ (key ++ update))))
          same (remapped p frame (key ++ update) id pos),
    )

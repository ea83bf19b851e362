-- ===== src/ReplicationWire/RoundTrip.antt =====
-- Packets of src/replication_wire.cpp are read back, and its two readers agree.
use fsnet.Base.{
  sym, ◌∙◌, ap, err, arith, refl, ◌++◌, ◌==◌, >>=-eq-ok, ◌^◌, ◌*◌, ◌≡◌, ◌<◌, length, Option, ◌≤◌,
  Bool, none, some, true, false,
}
use fsnet.Base.Errors.{Outcome, ok-injective, ◌>>=◌, invalid_argument, ok-subst, ok}
use fsnet.Base.Tests.{==_false, le→ltb_false}
use fsnet.Base.Texts.{starts_with, Bytes}
use fsnet.AttributeUpdate.{AttributeUpdate}
use fsnet.AttributeUpdate.Body.{UpdateFits}
use fsnet.AttributeUpdate.RoundTrip.{decode_attributes-encode_attributes}
use fsnet.Delivery.{internal}
use fsnet.EntityKey.{decode_entity_key, encode_entity_key}
use fsnet.EntityKey.RoundTrip.{Reads-encode_entity_key}
use fsnet.ReplicationWire.{
  ReplicationPacket, ReplicationPacketView, put_update, packet_prefix, encode_replication_packet,
}
use fsnet.ReplicationWire.Decode.{
  get_prefix, prefix, get_update, get_packet, decode_replication_packet, header_of,
  decode_replication_packet_view,
}
use fsnet.Wire.{bind_err, get_uint, bind_ok, value_of, put_uint}
use fsnet.Wire.Reads.{Reads-guard, Reads-end, Reads-uint, Reads-pure, Reads-bind, Reads, ReadsAll}

abbrev pub UpdatesFit : Bool → Option AttributeUpdate → Type 0
UpdatesFit true (some u) = UpdateFits u
UpdatesFit true none = Unit
UpdatesFit false (some u) = ⊥
UpdatesFit false none = Unit

-- What the fields hold: a status, a subscription, a lease and an update that the types allow, and
-- no update without `Status::ok`.
pub record PacketFits (p : ReplicationPacket) : Type 0 where
  pub status : p.status ≤ internal
  pub subscribed : 0 < p.subscription
  pub subscription : p.subscription < 2 ^ 64
  pub lease_ms : p.lease_ms < 2 ^ 32
  pub update : UpdatesFit (p.status == 0) p.update

pub ReadsAll-get_update :
    (carries : Bool) (update : Option AttributeUpdate) (out : Bytes)
    → UpdatesFit carries update
    → put_update carries update ≡ ok out
    → ReadsAll (get_update carries) out update
unfolding put_update get_update
ReadsAll-get_update false none out fits h =
    ok-subst (λ text. ReadsAll (get_update false) text none) h (record { at = refl })
ReadsAll-get_update false (some u) out fits h = elim fits [ ]
ReadsAll-get_update true none out fits h = cc
ReadsAll-get_update true (some u) out fits h = record {
  at = rw (decode_attributes-encode_attributes u out fits h) refl;
}

abbrev header : ReplicationPacket → ReplicationPacketView
header p = record {
  subscription = p.subscription;
  type = p.type;
  id = p.id;
  status = p.status;
  lease_ms = p.lease_ms;
  update = none;
}

Reads-get_prefix :
    (p : ReplicationPacket) (key : Bytes)
    → PacketFits p
    → encode_entity_key p.type p.id ≡ ok key
    → Reads get_prefix
        (put_uint 1 p.status ++ (put_uint 8 p.subscription ++ (put_uint 4 p.lease_ms ++ key)))
        (header p)
unfolding get_prefix
Reads-get_prefix p key fits h =
    Reads-bind (get_uint invalid_argument 1) _ _ _ p.status _
      (Reads-uint invalid_argument 1 p.status (omega (arith, fits.status))
        (omega (arith, fits.status)))
      (Reads-guard _ invalid_argument _ _ _ (le→ltb_false internal p.status fits.status) (
        Reads-bind (get_uint invalid_argument 8) _ _ _ p.subscription _
          (Reads-uint invalid_argument 8 p.subscription (omega (arith, fits.subscription))
            fits.subscription)
          (Reads-guard _ invalid_argument _ _ _
            (==_false p.subscription 0 (λ e. omega (arith, e, fits.subscribed)))
            (Reads-bind (get_uint invalid_argument 4) _ _ _ p.lease_ms _
              (Reads-uint invalid_argument 4 p.lease_ms (omega (arith, fits.lease_ms))
                (omega (arith, fits.lease_ms)))
              (Reads-end decode_entity_key _ key (p.type, p.id) _
                (Reads-encode_entity_key p.type p.id key h) (Reads-pure (header p)))))))

prefix_read :
    (p : ReplicationPacket) (key update : Bytes)
    → PacketFits p
    → encode_entity_key p.type p.id ≡ ok key
    → length (packet_prefix p ++ (key ++ update)) ≤ 1024 * 1024
    → prefix (packet_prefix p ++ (key ++ update)) ≡ ok (header p, update)
unfolding prefix starts_with put_uint
prefix_read p key update fits h short =
    rw (le→ltb_false (1024 * 1024) (length (packet_prefix p ++ (key ++ update))) short)
      ((Reads-get_prefix p key fits h).at update)

-- A packet of at most 1024 * 1024 bytes is read back as it was: its subscription is not 0, its fields
-- are values of their C++ types, and it carries an update only with `Status::ok`.
pub decode-encode_replication_packet :
    (p : ReplicationPacket) (out : Bytes)
    → PacketFits p
    → length out ≤ 1024 * 1024
    → encode_replication_packet p ≡ ok out
    → decode_replication_packet out ≡ ok p
unfolding encode_replication_packet decode_replication_packet get_packet
decode-encode_replication_packet p out fits short h =
    let (key, e1, h1) = >>=-eq-ok (encode_entity_key p.type p.id) _ h in
    let (update, e2, same) = >>=-eq-ok (put_update (p.status == 0) p.update) _ h1 in
    let text = packet_prefix p ++ (key ++ update) in
    let small : length text ≤ 1024 * 1024 = omega (arith, short, ap length (ok-injective same)) in
    ok-subst (λ x. decode_replication_packet x ≡ ok p) same
      (ap value_of (
        bind_ok prefix _ text (prefix_read p key update fits e1 small)
        ∙ bind_ok (get_update (p.status == 0)) _ update
            (ReadsAll-get_update (p.status == 0) p.update update fits.update e2).at))

-- The header of a packet.
abbrev pub view_of : ReplicationPacket → ReplicationPacketView
view_of p = record {
  subscription = p.subscription;
  type = p.type;
  id = p.id;
  status = p.status;
  lease_ms = p.lease_ms;
  update = header_of p.update;
}

abbrev shown : Outcome (ReplicationPacket × Bytes) → Outcome ReplicationPacketView
shown o = value_of o >>= λ p. ok (view_of p)

-- On every input the two readers agree: both throw the same, or the view is the header of the
-- packet.
pub decode_replication_packet_view-packet :
    (input : Bytes)
    → decode_replication_packet_view input
      ≡ (decode_replication_packet input >>= λ p. ok (view_of p))
unfolding decode_replication_packet_view decode_replication_packet get_packet
decode_replication_packet_view-packet input = by (prefix input) refl
  where
    got :
        (v : ReplicationPacketView) (rest : Bytes)
        (second : Outcome (Option AttributeUpdate × Bytes))
        → prefix input ≡ ok (v, rest)
        → get_update (v.status == 0) rest ≡ second
        → decode_replication_packet_view input
          ≡ (decode_replication_packet input >>= λ p. ok (view_of p))
    got v rest (ok (update, left)) h e =
        ap value_of (bind_ok prefix _ input h ∙ bind_ok (get_update (v.status == 0)) _ rest e)
        ∙ sym (ap shown (bind_ok prefix _ input h ∙ bind_ok (get_update (v.status == 0)) _ rest e))
    got v rest (err x) h e =
        ap value_of (bind_ok prefix _ input h ∙ bind_err (get_update (v.status == 0)) _ rest e)
        ∙ sym (ap shown (bind_ok prefix _ input h ∙ bind_err (get_update (v.status == 0)) _ rest e))

    by :
        (first : Outcome (ReplicationPacketView × Bytes))
        → prefix input ≡ first
        → decode_replication_packet_view input
          ≡ (decode_replication_packet input >>= λ p. ok (view_of p))
    by (err e) h =
        ap value_of (bind_err prefix _ input h) ∙ sym (ap shown (bind_err prefix _ input h))
    by (ok (v, rest)) h = got v rest (get_update (v.status == 0) rest) h refl

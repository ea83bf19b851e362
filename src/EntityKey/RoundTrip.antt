-- ===== src/EntityKey/RoundTrip.antt =====
-- Entity keys are read back, and are the only bytes that are read as keys.
use fsnet.Base.{ap, ◌+◌, inr, inl, ◌≤◌, ◌≡◌, false, [], arith, length, Bytes, invalid_argument}
use fsnet.Base.Errors.{ok-injective, ok-subst, ok}
use fsnet.Base.Tests.{Bool-cases}
use fsnet.EntityKey.{encode_entity_key, bad_key, key_bytes, decode_entity_key}
use fsnet.Wire.{take_text, get_uint}
use fsnet.Wire.Lengths.{take_text-length, get_uint-length, guard_inv, bind_inv}
use fsnet.Wire.Reads.{Reads-end, Reads, Reads-bind, Reads-guard, Reads-pure, Reads-uint, Reads-text}

pub key_lengths :
    (type id : Bytes) → bad_key type id ≡ false → (length type ≤ 127) × (length id ≤ 256)
key_lengths type id h = ground arith

pub Reads-key :
    (type id : Bytes)
    → bad_key type id ≡ false
    → Reads decode_entity_key (key_bytes type id) (type, id)
unfolding decode_entity_key
Reads-key type id good =
    let (type_max, id_max) = key_lengths type id good in
    Reads-bind (get_uint invalid_argument 1) _ _ _ (length type) _
      (Reads-uint invalid_argument 1 (length type) (omega arith) (omega arith))
      (Reads-bind (take_text invalid_argument (length type)) _ _ _ type _
        (Reads-text invalid_argument type)
        (Reads-bind (get_uint invalid_argument 2) _ _ _ (length id) _
          (Reads-uint invalid_argument 2 (length id) (omega arith) (omega arith))
          (Reads-end (take_text invalid_argument (length id)) _ id id _
            (Reads-text invalid_argument id)
            (Reads-guard (bad_key type id) invalid_argument _ [] _ good (Reads-pure (type, id))))))

-- A key that was written is read back.
pub Reads-encode_entity_key :
    (type id out : Bytes)
    → encode_entity_key type id ≡ ok out
    → Reads decode_entity_key out (type, id)
unfolding encode_entity_key
Reads-encode_entity_key type id out h = elim (Bool-cases (bad_key type id)) [
  | inl bad ↦ cc (rw bad at h)
  | inr good ↦
      ok-subst (λ key. Reads decode_entity_key key (type, id)) (rw good at h)
        (Reads-key type id good)
]

pub decode_entity_key-length :
    (input type id rest : Bytes)
    → decode_entity_key input ≡ ok ((type, id), rest)
    → length input ≤ 386 + length rest
unfolding decode_entity_key
decode_entity_key-length input type id rest h =
    let (n, in1, e1, h1) = bind_inv (get_uint invalid_argument 1) _ input h in
    let (name, in2, e2, h2) = bind_inv (take_text invalid_argument n) _ in1 h1 in
    let (m, in3, e3, h3) = bind_inv (get_uint invalid_argument 2) _ in2 h2 in
    let (text, in4, e4, h4) = bind_inv (take_text invalid_argument m) _ in3 h3 in
    let (good, same) = guard_inv (bad_key name text) _ _ in4 h4 in
    let (name_max, text_max) = key_lengths name text good in
    omega (
      arith,
      get_uint-length _ 1 input e1,
      take_text-length _ n in1 e2,
      get_uint-length _ 2 in2 e3,
      take_text-length _ m in3 e4,
      ap (λ (p : (Bytes × Bytes) × Bytes). length p.1) (ok-injective same),
    )

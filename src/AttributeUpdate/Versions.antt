-- ===== src/AttributeUpdate/Versions.antt =====
-- The four characters of a record choose its format: `decode_attributes` of
-- src/attribute_wire.cpp.
use fsnet.Base.{ap, true, false, length, ◌≡◌, ◌≤◌, ◌++◌, arith, Bytes}
use fsnet.Base.Errors.{ok, invalid_argument}
use fsnet.Base.Texts.{starts_with, codes}
use fsnet.Attribute.{size_limit}
use fsnet.AttributeUpdate.{AttributeUpdate}
use fsnet.AttributeUpdate.Decode.{decode_attributes, get_update}
use fsnet.Wire.{take_text, value_of}
use fsnet.Wire.Reads.{Reads-text, ReadsAll, ReadsAll-bind, ReadsAll-guard}

-- The first characters choose the format.
module _ (body : Bytes) (update : AttributeUpdate)
    (small : length (codes "FSA1" ++ body) ≤ size_limit) where
  pub read_one :
      ReadsAll (get_update false false) body update
      → decode_attributes (codes "FSA1" ++ body) ≡ ok update
  unfolding decode_attributes starts_with
  read_one r =
      ap value_of
        (ReadsAll-guard _ invalid_argument _ _ _ (ground (arith, small)) (
          ReadsAll-bind (take_text invalid_argument 4) _ (codes "FSA1") body (codes "FSA1") _
            (Reads-text invalid_argument (codes "FSA1")) r)).at

  pub read_two :
      ReadsAll (get_update true false) body update
      → decode_attributes (codes "FSA2" ++ body) ≡ ok update
  unfolding decode_attributes starts_with
  read_two r =
      ap value_of
        (ReadsAll-guard _ invalid_argument _ _ _ (ground (arith, small)) (
          ReadsAll-bind (take_text invalid_argument 4) _ (codes "FSA2") body (codes "FSA2") _
            (Reads-text invalid_argument (codes "FSA2")) r)).at

  pub read_three :
      ReadsAll (get_update true true) body update
      → decode_attributes (codes "FSA3" ++ body) ≡ ok update
  unfolding decode_attributes starts_with
  read_three r =
      ap value_of
        (ReadsAll-guard _ invalid_argument _ _ _ (ground (arith, small)) (
          ReadsAll-bind (take_text invalid_argument 4) _ (codes "FSA3") body (codes "FSA3") _
            (Reads-text invalid_argument (codes "FSA3")) r)).at

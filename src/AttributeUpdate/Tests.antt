-- ===== src/AttributeUpdate/Tests.antt =====
-- An update at a concrete input, for the records of src/attribute_wire.cpp.
use fsnet.Base.{
  ◌≤◌, true, false, [], ◌∷◌, ◌++◌, none, some, codes, Bytes, ok, ◌≡◌, refl, arith, length,
}
use fsnet.Base.Errors.{◌>>=◌}
use fsnet.Base.Int.{pos, negsuc}
use fsnet.Base.Maps.{find}
use fsnet.Base.Texts.{text_lt, contains_byte, text_eq}
use fsnet.Attribute.{
  size_limit, integer, boolean, string, structure, no_field, field, bad_name, bad_map_key,
}
use fsnet.Attribute.Encode.{encode_value}
use fsnet.Attribute.Written.{AreItems, AreFields}
use fsnet.AttributeUpdate.{key_part, index_part, AttributePatch, AttributeUpdate, field_paths}
use fsnet.AttributeUpdate.Body.{UpdateFits}
use fsnet.AttributeUpdate.Bounds.{length-encode_attributes}
use fsnet.AttributeUpdate.Decode.{decode_attributes}
use fsnet.AttributeUpdate.Encode.{
  encode_attributes, encode_update, encode_image, encode_values, encode_rest, encode_patches,
  encode_patch, encode_kind, encode_entry, encode_splice, encode_replacement, encode_paths,
  encode_path, encode_optional, encode_insert, set_version, attribute_wire_size,
}
use fsnet.AttributeUpdate.RoundTrip.{decode_attributes-encode_attributes}
use fsnet.AttributeUpdate.Size.{attribute_wire_size-encode_attributes}
use fsnet.Message.{has_separator}
use fsnet.Wire.{put_uint}

abbrev edit : AttributePatch
edit = record {
  property = codes "bag";
  is_map = false;
  key = [];
  value = some (integer (negsuc 0));
  position = 0;
  remove = 0;
  insert = [];
  path = key_part (codes "gold") ∷ index_part 2 ∷ [];
  replace = true;
}

abbrev push : AttributePatch
push = record {
  property = codes "log";
  is_map = false;
  key = [];
  value = none;
  position = 1;
  remove = 0;
  insert = string (codes "hi") ∷ [];
  path = [];
  replace = false;
}

abbrev pub sample : AttributeUpdate
sample = record {
  base = 3;
  revision = 4;
  snapshot = false;
  values =
      (codes "hp", integer (pos 7))
      ∷ (codes "pos", structure (field (codes "x") (boolean true) no_field))
      ∷ [];
  patches = edit ∷ push ∷ [];
}

abbrev pub sample_bytes : Bytes
sample_bytes =
    codes "FSA3"
    ++ (0 ∷ 0 ∷ 0 ∷ 0 ∷ 0 ∷ 0 ∷ 0 ∷ 0 ∷ 3 ∷ 0 ∷ 0 ∷ 0 ∷ 0 ∷ 0 ∷ 0 ∷ 0 ∷ 4 ∷ 0 ∷ 2 ∷ 2 ∷ codes "hp"
        ++ (0 ∷ 0 ∷ 0 ∷ 0 ∷ 0 ∷ 0 ∷ 0 ∷ 0 ∷ 7 ∷ 3 ∷ codes "pos"
            ++ (4 ∷ 1 ∷ 1 ∷ codes "x"
                ++ (2 ∷ 1 ∷ 0 ∷ 2 ∷ 3 ∷ codes "bag"
                    ++ (2 ∷ 1 ∷ 4 ∷ codes "gold"
                        ++ (0
                              ∷ 0
                              ∷ 2
                              ∷ 2
                              ∷ 0
                              ∷ 255
                              ∷ 255
                              ∷ 255
                              ∷ 255
                              ∷ 255
                              ∷ 255
                              ∷ 255
                              ∷ 255
                              ∷ 3
                              ∷ codes "log"
                            ++ (0
                                ∷ 0
                                ∷ 0
                                ∷ 1
                                ∷ 0
                                ∷ 0
                                ∷ 0
                                ∷ 1
                                ∷ 3
                                ∷ 0
                                ∷ 0
                                ∷ 0
                                ∷ 2
                                ∷ codes "hi")))))))

pub sample_encoded : encode_attributes sample ≡ ok sample_bytes
unfolding encode_attributes encode_update encode_image encode_values encode_rest encode_patches
    encode_patch encode_kind encode_entry encode_splice encode_replacement encode_paths encode_path
    encode_optional encode_insert set_version encode_value put_uint bad_name bad_map_key
    has_separator contains_byte field_paths find text_eq
sample_encoded = refl

pub sample-Fits : UpdateFits sample
unfolding text_lt AreFields AreItems
sample-Fits = record {
  base = omega arith;
  revision = omega arith;
  values = (omega arith, (((tt, tt), tt), tt));
  sorted = (refl, tt);
  patches = ((omega arith, tt), ((tt, (tt, tt)), tt));
}

decode_attributes-encode_attributes_example : decode_attributes sample_bytes ≡ ok sample
decode_attributes-encode_attributes_example =
    decode_attributes-encode_attributes sample sample_bytes sample-Fits sample_encoded

length-encode_attributes_example : length sample_bytes ≤ size_limit
length-encode_attributes_example = length-encode_attributes sample sample_bytes sample_encoded

attribute_wire_size-encode_attributes_example :
    attribute_wire_size sample ≡ (encode_attributes sample >>= λ out. ok (length out))
attribute_wire_size-encode_attributes_example = attribute_wire_size-encode_attributes sample

-- ===== src/AttributeUpdate/Size.antt =====
-- `attribute_wire_size` of src/attribute_wire.cpp against `encode_attributes`.
use fsnet.Base.{
  sym, ap, ℕ, ok, err, true, false, ltb, leb, ◌==◌, ◌||◌, ◌&&◌, ◌+◌, length, not, List, [], ◌∷◌,
  Bool, refl, ◌≡◌, is_empty, is_some, if◌then◌else◌, Option, none, some, codes,
}
use fsnet.Base.Errors.{Outcome, invalid_argument, length_error, ◌>>=◌}
use fsnet.Base.Maps.{find}
use fsnet.Base.Texts.{Bytes}
use fsnet.Attribute.{
  node_limit, AttributeValue, AttributeStruct, AttributeArray, bad_name, bad_map_key,
}
use fsnet.Attribute.Agrees.{
  counted, Agrees, Agrees-ok, Agrees-write, Agrees-guard, Agrees-bind, Agrees-limit, Agrees-name,
}
use fsnet.Attribute.Encode.{text_output, size_output}
use fsnet.Attribute.Size.{encode_value-Agrees}
use fsnet.AttributeUpdate.{
  PathPart, key_part, index_part, AttributePatch, AttributeUpdate, field_paths,
}
use fsnet.AttributeUpdate.Encode.{
  encode_values, encode_image, encode_path, encode_paths, encode_insert, encode_optional,
  encode_replacement, encode_entry, encode_splice, encode_kind, encode_patch, encode_patches,
  encode_rest, encode_update, set_version, encode_attributes, attribute_wire_size, kind,
}
use fsnet.Wire.{put_uint, flag}

values-Agrees :
    (values : AttributeStruct)
    → Agrees (encode_values text_output values) (encode_values size_output values)
unfolding encode_values
values-Agrees [] = Agrees-ok
values-Agrees ((name, value) ∷ values) =
    Agrees-guard _ _
      (Agrees-bind _ _ (Agrees-name _ _ name (encode_value-Agrees value 0)) _ _
        (Agrees-bind _ _ Agrees-limit _ _ (values-Agrees values)))
      (bad_name name) invalid_argument

image-Agrees :
    (values : AttributeStruct) (base revision : ℕ) (snapshot : Bool)
    → Agrees
        (encode_image text_output values base revision snapshot)
        (encode_image size_output values base revision snapshot)
unfolding encode_image
image-Agrees values base revision snapshot =
    Agrees-guard _ _
      (Agrees-write _ _
        (Agrees-write _ _
          (Agrees-write _ _
            (Agrees-write _ _ (Agrees-write _ _ (values-Agrees values) (put_uint 2 (length values)))
              (put_uint 8 revision))
            (put_uint 8 base))
          (put_uint 1 (flag snapshot)))
        (codes "FSA1"))
      (ltb 256 (length values) || ltb revision base || (snapshot && not (base == 0)))
      invalid_argument

path-Agrees :
    (path : List PathPart) → Agrees (encode_path text_output path) (encode_path size_output path)
unfolding encode_path
path-Agrees [] = Agrees-ok
path-Agrees (key_part key ∷ path) =
    Agrees-guard _ _ (Agrees-write _ _ (Agrees-name _ _ key (path-Agrees path)) (put_uint 1 1))
      (bad_map_key key) invalid_argument
path-Agrees (index_part index ∷ path) =
    Agrees-guard _ _
      (Agrees-write _ _ (Agrees-write _ _ (path-Agrees path) (put_uint 2 index)) (put_uint 1 0))
      (leb 256 index) invalid_argument

paths-Agrees :
    (paths : Bool) (path : List PathPart)
    → Agrees (encode_paths text_output paths path) (encode_paths size_output paths path)
unfolding encode_paths
paths-Agrees false path = Agrees-ok
paths-Agrees true path = Agrees-write _ _ (path-Agrees path) (put_uint 1 (length path))

insert-Agrees :
    (values : AttributeArray) (depth : ℕ)
    → Agrees (encode_insert text_output values depth) (encode_insert size_output values depth)
unfolding encode_insert
insert-Agrees [] depth = Agrees-ok
insert-Agrees (value ∷ values) depth =
    Agrees-bind _ _ (encode_value-Agrees value depth) _ _ (insert-Agrees values depth)

optional-Agrees :
    (value : Option AttributeValue) (depth : ℕ)
    → Agrees (encode_optional text_output value depth) (encode_optional size_output value depth)
unfolding encode_optional
optional-Agrees none depth = Agrees-ok
optional-Agrees (some value) depth = encode_value-Agrees value depth

kind-Agrees :
    (patch : AttributePatch)
    → Agrees (encode_kind text_output patch) (encode_kind size_output patch)
unfolding encode_kind encode_replacement encode_entry encode_splice
kind-Agrees patch =
    choose patch.replace patch.is_map
      (Agrees-guard _ _ (optional-Agrees patch.value (length patch.path))
        (patch.is_map
          || not (is_some patch.value)
          || not (is_empty patch.key)
          || not (is_empty patch.insert)
          || not (patch.position == 0)
          || not (patch.remove == 0))
        invalid_argument)
      (Agrees-guard _ _
        (Agrees-guard _ _
          (Agrees-name _ _ patch.key (
            Agrees-write _ _ (optional-Agrees patch.value (length patch.path + 1))
              (put_uint 1 (flag (is_some patch.value)))))
          (not (is_empty patch.insert) || not (patch.position == 0) || not (patch.remove == 0))
          invalid_argument)
        (bad_map_key patch.key) invalid_argument)
      (Agrees-guard _ _
        (Agrees-write _ _
          (Agrees-write _ _
            (Agrees-write _ _ (insert-Agrees patch.insert (length patch.path + 1))
              (put_uint 2 (length patch.insert)))
            (put_uint 2 patch.remove))
          (put_uint 2 patch.position))
        (ltb 256 patch.position
          || ltb 256 patch.remove
          || ltb 256 (length patch.insert)
          || not (is_empty patch.key)
          || is_some patch.value)
        invalid_argument)
  where
    choose :
        (r m : Bool) {f1 f2 f3 : Bytes × ℕ → Outcome (Bytes × ℕ)}
        {g1 g2 g3 : ℕ × ℕ → Outcome (ℕ × ℕ)}
        → Agrees f1 g1
        → Agrees f2 g2
        → Agrees f3 g3
        → Agrees
            (λ s. if r then f1 s else if m then f2 s else f3 s)
            (λ s. if r then g1 s else if m then g2 s else g3 s)
    choose true m a b c = record { at = a.at }
    choose false true a b c = record { at = b.at }
    choose false false a b c = record { at = c.at }

patch-Agrees :
    (patch : AttributePatch) (paths : Bool)
    → Agrees (encode_patch text_output patch paths) (encode_patch size_output patch paths)
unfolding encode_patch
patch-Agrees patch paths =
    Agrees-guard _ _
      (Agrees-guard _ _
        (Agrees-bind _ _ (Agrees-name _ _ patch.property (paths-Agrees paths patch.path)) _ _ (
          Agrees-bind _ _
            (Agrees-write _ _ (kind-Agrees patch) (put_uint 1 (kind text_output patch))) _ _
            Agrees-limit))
        (ltb 8 (length patch.path)) length_error)
      (bad_name patch.property) invalid_argument

patches-Agrees :
    (values : AttributeStruct) (paths : Bool) (patches : List AttributePatch)
    → Agrees
        (encode_patches text_output values paths patches)
        (encode_patches size_output values paths patches)
unfolding encode_patches
patches-Agrees values paths [] = Agrees-ok
patches-Agrees values paths (patch ∷ patches) =
    Agrees-guard _ _
      (Agrees-bind _ _ (patch-Agrees patch paths) _ _ (patches-Agrees values paths patches))
      (is_some (find patch.property values)) invalid_argument

rest-Agrees :
    (update : AttributeUpdate)
    → Agrees (encode_rest text_output update) (encode_rest size_output update)
unfolding encode_rest
rest-Agrees update = choose (is_empty update.patches) (
    Agrees-guard _ _
      (Agrees-write _ _ (patches-Agrees update.values (field_paths update.patches) update.patches)
        (put_uint 2 (length update.patches)))
      (update.snapshot || ltb 256 (length update.patches)) invalid_argument)
  where
    choose :
        (b : Bool) {f : Bytes × ℕ → Outcome (Bytes × ℕ)} {g : ℕ × ℕ → Outcome (ℕ × ℕ)}
        → Agrees f g
        → Agrees (λ s. if b then ok s else f s) (λ s. if b then ok s else g s)
    choose true a = record { at = λ s. refl }
    choose false a = record { at = a.at }

pub length-set_version : (code : ℕ) (out : Bytes) → length (set_version code out) ≡ length out
unfolding set_version
length-set_version code [] = refl
length-set_version code (a ∷ []) = refl
length-set_version code (a ∷ b ∷ []) = refl
length-set_version code (a ∷ b ∷ c ∷ []) = refl
length-set_version code (a ∷ b ∷ c ∷ d ∷ out) = refl

update-counted :
    (update : AttributeUpdate)
    → encode_update size_output update 0 ≡ counted (encode_update text_output update [])
unfolding encode_update
update-counted update =
    (Agrees-bind _ _ (image-Agrees update.values update.base update.revision update.snapshot) _ _
        (rest-Agrees update)).at
      ([], node_limit)

-- `attribute_wire_size` returns the length of what `encode_attributes` returns, and throws what
-- that throws, for every update: nothing is written, but all the tests are made.
pub attribute_wire_size-encode_attributes :
    (update : AttributeUpdate)
    → attribute_wire_size update ≡ (encode_attributes update >>= λ out. ok (length out))
unfolding attribute_wire_size encode_attributes
attribute_wire_size-encode_attributes update = rw (update-counted update) (
    go (encode_update text_output update []) (is_empty update.patches)
      (if field_paths update.patches then b'3' else b'2'))
  where
    go :
        (x : Outcome (Bytes × ℕ)) (b : Bool) (code : ℕ)
        → (counted x >>= λ t. ok t.0)
          ≡ ((x >>= λ t. ok (if b then t.0 else set_version code t.0)) >>= λ out. ok (length out))
    go (err e) b code = refl
    go (ok t) true code = refl
    go (ok t) false code = ap (λ (n : ℕ). ok n) (sym (length-set_version code t.0))

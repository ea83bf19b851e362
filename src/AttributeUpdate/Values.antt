-- ===== src/AttributeUpdate/Values.antt =====
-- The values of a patch are read back: parts of `encode_patch` and `decode_attributes` of
-- src/attribute_wire.cpp.
use fsnet.Base.{
  ℕ, ok, false, ◌+◌, ◌-◌, ap, sym, ◌∙◌, length, ◌≡◌, not, ◌≤◌, refl, Option, none, some, inl, inr,
  [], ◌∷◌, arith, Bytes, is_some,
}
use fsnet.Base.Errors.{◌>>=◌, Outcome-cases}
use fsnet.Attribute.{AttributeValue, AttributeArray, to_items, elements}
use fsnet.Attribute.Decode.{get_items, decode_value}
use fsnet.Attribute.Encode.{text_output, encode_value, encode_items}
use fsnet.Attribute.RoundTrip.{Wrote-value, Wrote-items, nothing_written}
use fsnet.Attribute.Written.{Wrote, IsValue, AreItems}
use fsnet.AttributeUpdate.{AttributePatch}
use fsnet.AttributeUpdate.Decode.{get_present}
use fsnet.AttributeUpdate.Encode.{encode_insert, encode_optional}
use fsnet.Wire.Reads.{Reads-pure, Reads-end}
use mathlib.Core.Path.{subst}

abbrev pub OptionFits : Option AttributeValue → Type 0
OptionFits none = Unit
OptionFits (some value) = IsValue value

-- The values of a patch are values that the C++ types can hold.
abbrev pub PatchFits : AttributePatch → Type 0
PatchFits patch = OptionFits patch.value × AreItems (to_items patch.insert)

pub level : (depth : ℕ) → depth ≤ 9 → depth + (9 - depth) ≡ 9
level depth h = omega arith

encode_insert-encode_items :
    (values : AttributeArray) (depth : ℕ) (s : Bytes × ℕ)
    → encode_insert text_output values depth s ≡ encode_items text_output (to_items values) depth s
unfolding encode_insert encode_items
encode_insert-encode_items [] depth s = refl
encode_insert-encode_items (value ∷ values) depth s =
    elim (Outcome-cases (encode_value text_output value depth s)) [
      | inl (t, e) ↦ rw (e, ◌>>=◌) (encode_insert-encode_items values depth t)
      | inr (x, e) ↦ rw (e, ◌>>=◌) refl
    ]

elements-to_items : (values : AttributeArray) → elements (to_items values) ≡ values
elements-to_items [] = refl
elements-to_items (value ∷ values) =
    ap (λ (x : AttributeArray). value ∷ x) (elements-to_items values)

pub insert-Wrote :
    (values : AttributeArray) (depth : ℕ) (s t : Bytes × ℕ)
    → depth ≤ 9
    → AreItems (to_items values)
    → encode_insert text_output values depth s ≡ ok t
    → Wrote (get_items (decode_value (9 - depth)) (length values)) s t values
insert-Wrote values depth s t le fits h =
    subst (λ (xs : AttributeArray). Wrote (get_items (decode_value (9 - depth)) (length xs)) s t xs)
      (elements-to_items values)
      (Wrote-items (to_items values) (9 - depth) depth s t (level depth le) fits
        (sym (encode_insert-encode_items values depth s) ∙ h))

-- A value that is there.
pub some-Wrote :
    (o : Option AttributeValue) (depth : ℕ) (s t : Bytes × ℕ)
    → depth ≤ 9
    → OptionFits o
    → not (is_some o) ≡ false
    → encode_optional text_output o depth s ≡ ok t
    → (value : AttributeValue) × (o ≡ some value) × Wrote (decode_value (9 - depth)) s t value
unfolding encode_optional
some-Wrote none depth s t le fits here h = cc
some-Wrote (some value) depth s t le fits here h =
    (value, refl, Wrote-value value (9 - depth) depth s t (level depth le) fits h)

pub present-Wrote :
    (o : Option AttributeValue) (depth : ℕ) (s t : Bytes × ℕ)
    → depth ≤ 9
    → OptionFits o
    → encode_optional text_output o depth s ≡ ok t
    → Wrote (get_present (is_some o) depth) s t o
unfolding encode_optional get_present
present-Wrote none depth s t le fits h =
    nothing_written (get_present false depth) s t none (Reads-pure (none, s.1)) h
present-Wrote (some value) depth s t le fits h =
    let r = Wrote-value value (9 - depth) depth s t (level depth le) fits h in
    record {
      bytes = r.bytes;
      output = r.output;
      reads =
          Reads-end (decode_value (9 - depth) s.1) _ r.bytes (value, t.1) _ r.reads (Reads-pure _);
    }

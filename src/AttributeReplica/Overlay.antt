-- ===== src/AttributeReplica/Overlay.antt =====
-- What is found in an image after a delta has been moved into it.
use fsnet.Base.{Bytes, [], ◌∷◌, none, ◌≡◌, refl, ap, ◌∙◌, inl, inr}
use fsnet.Base.Maps.{find, insert_or_assign, find-insert_or_assign, IsSorted, find_below}
use fsnet.Base.Tests.{Bool-cases}
use fsnet.Base.Texts.{text_eq, text_eq→eq}
use fsnet.Attribute.{AttributeStruct}
use fsnet.AttributeReplica.{overlay}
use fsnet.EntitySchema.Collected.{or_found, IsSorted-tail}
use mathlib.Core.Path.{subst}

pub find-overlay :
    (k : Bytes) (delta values : AttributeStruct)
    → IsSorted delta
    → find k (overlay values delta) ≡ or_found (find k delta) (find k values)
unfolding overlay find
find-overlay k [] values sorted = refl
find-overlay k ((name, value) ∷ delta) values sorted =
    find-overlay k delta (insert_or_assign name value values)
      (IsSorted-tail name value delta sorted)
    ∙ ap (λ o. or_found (find k delta) o) (find-insert_or_assign k name value values)
    ∙ elim (Bool-cases (text_eq name k)) [
      | inl e ↦
          let below : find k delta ≡ none =
            subst (λ x. find x delta ≡ none) (text_eq→eq name k e) (find_below name delta sorted) in
          rw (e, below) refl
      | inr e ↦ rw e refl
    ]

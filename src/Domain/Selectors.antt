-- ===== src/Domain/Selectors.antt =====
-- internal/domain/model_core.go: Selector.Matches, which fails every wanted label on a nil label map and
-- reads a missing label of any other map as "".
use asterferry.Base.{
  Bool, true, false, ◌&&◌, Option, none, some, [], ◌∷◌, String, ◌==◌, string_keyed,
}
use asterferry.Base.Maps.{Map, value_or}

-- The loop over the wanted labels, for a label map that is not nil.
unfoldable pub has_labels : Map String String → Map String String → Bool
has_labels [] labels = true
has_labels ((key, value) ∷ wanted) labels =
    value_or key labels "" == value && has_labels wanted labels

-- `none` is the nil map.
unfoldable pub matches : Map String String → Option (Map String String) → Bool
matches wanted (some labels) = has_labels wanted labels
matches [] none = true
matches (pair ∷ wanted) none = false

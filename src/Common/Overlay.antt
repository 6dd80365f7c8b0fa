-- ===== src/Common/Overlay.antt =====
-- `maps.Copy`: one map put over another.
use mathlib.Core.Path.{◌≡◌, refl, sym, ap, ◌∙◌}
use mathlib.Core.Logic.{inl, inr}
use mathlib.Core.Bool.{true}
use mathlib.Core.Option.{Option, none, some}
use mathlib.Core.List.{List, [], ◌∷◌}
use Prim.Native.String.{String}
use text.Mathlib.TextEquality.{eq_iff}
use cloud_burst_controller.Common.Tests.{if◌then◌else◌, Bool-cases}
use cloud_burst_controller.Common.Text.{lookup, insert, lookup-insert, copy_into, str_eq}

-- A map has each key once.
abbrev pub UniqueKeys : List (String × String) → Type 0
UniqueKeys [] = Unit
UniqueKeys (kv ∷ m) = (lookup kv.0 m ≡ none) × UniqueKeys m

abbrev pub or_else : Option String → Option String → Option String
or_else none o = o
or_else (some v) o = some v

lookup_first :
    (k key v : String) (o p : Option String)
    → (str_eq key k ≡ true → o ≡ none)
    → or_else o (if str_eq key k then some v else p)
      ≡ or_else (if str_eq key k then some v else o) p
lookup_first k key v o p only = elim (Bool-cases (str_eq key k)) [
  | inl same ↦ rw (same, only same) refl
  | inr other ↦ rw other refl
]

-- What `maps.Copy` leaves at a key.
pub lookup-copy_into :
    (k : String) (m src : List (String × String))
    → UniqueKeys src
    → lookup k (copy_into m src) ≡ or_else (lookup k src) (lookup k m)
unfolding copy_into lookup
lookup-copy_into k m [] unique = refl
lookup-copy_into k m ((key, v) ∷ src) unique =
    lookup-copy_into k (insert key v m) src unique.1
    ∙ ap (or_else (lookup k src)) (lookup-insert key k v m)
    ∙ lookup_first k key v (lookup k src) (lookup k m)
        (λ same. ap (λ j. lookup j src) (sym ((eq_iff key k).0 same)) ∙ unique.0)

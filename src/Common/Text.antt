-- ===== src/Common/Text.antt =====
-- Texts and maps: the native `String` with Go's `==` and `<`, and maps with text keys as association
-- lists. A nil map and an empty map read alike.
use Prim.Native.Nat.{Ordering}
use Prim.Native.String.{String, compare, ◌++◌}
use Prim.Native.String.compare
use mathlib.Core.Path.{◌≡◌, refl, subst}
use mathlib.Core.HLevel.{hedberg}
use mathlib.Core.Bool.{Bool, true, false}
use mathlib.Core.Option.{Option, none, some}
use mathlib.Core.Logic.{inl, inr}
use mathlib.Core.List.{List, [], ◌∷◌}
use native.Mathlib.Omega.{arith}
use text.Mathlib.Text.{◌==◌, is_lt}
use text.Mathlib.TextEquality.{eq_iff, path_by_compare}
use cloud_burst_controller.Common.Tests.{if◌then◌else◌, Bool-cases}
use cloud_burst_controller.Common.Lists.{All}

abbrev pub str_eq : String → String → Bool
str_eq s t = s == t

-- Go's `<` on strings: by bytes, which is the order of the characters' numbers.
abbrev pub str_lt : String → String → Bool
str_lt s t = is_lt (compare s t)

-- `s ≤ t`, as the negation of `t < s`, is transitive.
pub str_lt-trans_not :
    (s t u : String) → str_lt t s ≡ false → str_lt u t ≡ false → str_lt u s ≡ false
str_lt-trans_not String.[] String.[] u h k = k
str_lt-trans_not String.[] (String.◌∷◌ d t) String.[] h k = ground (arith, compare.nil-nil)
str_lt-trans_not String.[] (String.◌∷◌ d t) (String.◌∷◌ e u) h k =
    ground (arith, compare.cons-nil e u)
str_lt-trans_not (String.◌∷◌ c s) String.[] u h k = ground (arith, compare.nil-cons c s)
str_lt-trans_not (String.◌∷◌ c s) (String.◌∷◌ d t) String.[] h k =
    ground (arith, compare.nil-cons d t)
str_lt-trans_not (String.◌∷◌ c s) (String.◌∷◌ d t) (String.◌∷◌ e u) h k = ground (
  arith,
  compare.cons-cons d c t s,
  compare.cons-cons e d u t,
  compare.cons-cons e c u s,
  str_lt-trans_not s t u,
)

-- One of two texts at most is the smaller.
pub str_lt_asymm : (s t : String) → str_lt s t ≡ true → str_lt t s ≡ false
str_lt_asymm String.[] String.[] h = refl
str_lt_asymm String.[] (String.◌∷◌ d t) h = ground (arith, compare.cons-nil d t)
str_lt_asymm (String.◌∷◌ c s) String.[] h = ground (arith, compare.cons-nil c s)
str_lt_asymm (String.◌∷◌ c s) (String.◌∷◌ d t) h =
    ground (arith, compare.cons-cons c d s t, compare.cons-cons d c t s, str_lt_asymm s t)

pub str_lt_irrefl : (s : String) → str_lt s s ≡ false
str_lt_irrefl String.[] = refl
str_lt_irrefl (String.◌∷◌ c s) = ground (arith, compare.cons-cons c c s s, str_lt_irrefl s)

compare_gt : (s t : String) → compare s t ≡ Ordering.gt → compare t s ≡ Ordering.lt
compare_gt String.[] String.[] h = cc compare.nil-nil
compare_gt String.[] (String.◌∷◌ d t) h = ground (arith, compare.nil-cons d t)
compare_gt (String.◌∷◌ c s) String.[] h = ground (arith, compare.nil-cons c s)
compare_gt (String.◌∷◌ c s) (String.◌∷◌ d t) h =
    ground (arith, compare.cons-cons c d s t, compare.cons-cons d c t s, compare_gt s t)

-- Texts of which neither is smaller are equal.
pub eq_of_not-str_lt : (s t : String) → str_lt s t ≡ false → str_lt t s ≡ false → s ≡ t
eq_of_not-str_lt s t h k = path_by_compare s t (ground (arith, compare_gt s t))

module _ {ℓ} {V : Type ℓ} where
  unfoldable pub lookup : String → List (String × V) → Option V
  lookup key [] = none
  lookup key (entry ∷ rest) = if str_eq entry.0 key then some entry.1 else lookup key rest

  unfoldable pub insert : String → V → List (String × V) → List (String × V)
  insert key value [] = (key, value) ∷ []
  insert key value (entry ∷ rest) =
      if str_eq entry.0 key then (key, value) ∷ rest else entry ∷ insert key value rest

  pub lookup-insert :
      (key other : String) (value : V) (entries : List (String × V))
      → lookup other (insert key value entries)
        ≡ (if str_eq key other then some value else lookup other entries)
  unfolding lookup insert
  lookup-insert key other value [] = refl
  lookup-insert key other value (entry ∷ rest) = ground (
    arith,
    lookup-insert key other value rest,
    eq_iff entry.0 key,
    eq_iff entry.0 other,
    eq_iff key other,
  )

  pub lookup-All {κ} :
      (P : V → Type κ) (k : String) (m : List (String × V))
      → All (λ (kv : String × V). P kv.1) m
      → (v : V) → lookup k m ≡ some v
      → P v
  unfolding lookup
  lookup-All P k [] h v e = cc
  lookup-All P k ((j, w) ∷ m) h v e = elim (Bool-cases (str_eq j k)) [
    | inl same ↦ let found : some w ≡ some v = rw (same, lookup) at e in subst P (cc found) h.0
    | inr other ↦ lookup-All P k m h.1 v (rw (other, lookup) at e)
  ]

  -- `maps.Copy(m, src)`
  unfoldable pub copy_into : List (String × V) → List (String × V) → List (String × V)
  unfolding insert
  copy_into m [] = m
  copy_into m ((k, v) ∷ src) = copy_into (insert k v m) src

-- `m[k]` of a `map[string]string`: the empty text if the key is missing.
unfoldable pub text_at : String → List (String × String) → String
unfolding lookup
text_at k m = elim (lookup k m) [ none ↦ "" | some v ↦ v ]

unfoldable pub has_key {ℓ} : {V : Type ℓ} → String → List (String × V) → Bool
unfolding lookup
has_key k m = elim (lookup k m) [ none ↦ false | some v ↦ true ]

unfoldable pub cat : String → String → String
cat s t = s ++ t

dec_string : Discrete String
dec_string s t = elim (Bool-cases (str_eq s t)) [
  | inl e ↦ yes ((eq_iff s t).0 e)
  | inr e ↦ no (λ p. cc (e, (eq_iff s t).1 p))
]

pub string_set : IsSet String
string_set = hedberg dec_string

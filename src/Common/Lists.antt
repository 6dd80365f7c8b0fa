-- ===== src/Common/Lists.antt =====
-- Lists measured and indexed by native numbers, under the library's names, and predicates on all
-- members.
use Prim.Native.Nat.{ℕ, zero, suc, ◌+◌, ◌≤◌}
use mathlib.Core.Path.{◌≡◌, refl, sym, subst}
use mathlib.Core.Logic.Or
use mathlib.Core.Bool.{Bool, true, false, ◌&&◌, ◌||◌}
use mathlib.Core.Option.{Option, none, some}
use mathlib.Core.List.Perm
use mathlib.Core.List.{
  List, [], ◌∷◌, ◌++◌, Mem, Perm, mem-cons, mem-cons_self, mem-cons_of_mem, not-mem-nil, Mem-prop,
}
use mathlib.Core.Logic.{inl, inr}
use native.Mathlib.Omega.{arith}
use cloud_burst_controller.Common.Tests.{if◌then◌else◌, Bool-cases}

module _ {ℓ} {A : Type ℓ} where
  abbrev pub length : List A → ℕ
  length [] = 0
  length (x ∷ xs) = suc (length xs)

  abbrev pub get_elem? : List A → ℕ → Option A
  get_elem? [] i = none
  get_elem? (x ∷ xs) zero = some x
  get_elem? (x ∷ xs) (suc i) = get_elem? xs i

  abbrev pub get_or : List A → ℕ → A → A
  get_or [] i d = d
  get_or (x ∷ xs) zero d = x
  get_or (x ∷ xs) (suc i) d = get_or xs i d

  pub length-append : (xs ys : List A) → length (xs ++ ys) ≡ length xs + length ys
  length-append [] ys = omega arith
  length-append (x ∷ xs) ys = omega (arith, length-append xs ys)

  abbrev pub All {κ} : (A → Type κ) → List A → Type κ
  All P [] = Unit
  All P (x ∷ xs) = P x × All P xs

  -- Some member passes, and all members pass: `for` loops that return early.
  unfoldable pub any : (A → Bool) → List A → Bool
  any p [] = false
  any p (x ∷ xs) = p x || any p xs

  unfoldable pub all : (A → Bool) → List A → Bool
  all p [] = true
  all p (x ∷ xs) = p x && all p xs

  -- `for` with `continue` on a failed test and `append` at the end.
  unfoldable pub filter : (A → Bool) → List A → List A
  filter p [] = []
  filter p (x ∷ xs) = if p x then x ∷ filter p xs else filter p xs

  pub any-append : (p : A → Bool) (xs ys : List A) → any p (xs ++ ys) ≡ (any p xs || any p ys)
  unfolding any
  any-append p [] ys = refl
  any-append p (x ∷ xs) ys = ground (arith, any-append p xs ys)

  pub all_cons : (p : A → Bool) (x : A) (xs : List A) → all p (x ∷ xs) ≡ (p x && all p xs)
  unfolding all
  all_cons p x xs = refl

  pub any_cons : (p : A → Bool) (x : A) (xs : List A) → any p (x ∷ xs) ≡ (p x || any p xs)
  unfolding any
  any_cons p x xs = refl

-- What holds of all members holds of each.
module _ {ℓ κ} {A : Type ℓ} (P : A → Type κ) where
  pub All-of_mem : (xs : List A) → ((x : A) → Mem x xs → P x) → All P xs
  All-of_mem [] h = tt
  All-of_mem (x ∷ xs) h = (h x mem-cons_self, All-of_mem xs (λ y m. h y (mem-cons_of_mem x m)))

  pub All-mem : ((x : A) → IsProp (P x)) → (xs : List A) → All P xs → (x : A) → Mem x xs → P x
  All-mem prop [] h x m = absurd (not-mem-nil m)
  All-mem prop (y ∷ ys) h x m =
      Or.elim (prop x) (mem-cons.0 m) (λ e. subst P (sym e) h.0) (All-mem prop ys h.1 x)

  pub All-perm : ((x : A) → IsProp (P x)) → {xs ys : List A} → Perm xs ys → All P xs → All P ys
  All-perm prop {xs} {ys} p h =
      All-of_mem ys (λ y m. All-mem prop xs h y (Perm.subset (Perm.symm p) y m))

  pub All-append : (xs ys : List A) → All P xs → All P ys → All P (xs ++ ys)
  All-append [] ys hx hy = hy
  All-append (x ∷ xs) ys hx hy = (hx.0, All-append xs ys hx.1 hy)

  pub All-middle : (xs : List A) (y : A) (ys : List A) → All P (xs ++ y ∷ ys) → P y
  All-middle [] y ys h = h.0
  All-middle (x ∷ xs) y ys h = All-middle xs y ys h.1

module _ {ℓ κ} {A : Type ℓ} (P : A → Type κ) where
  pub All-replace :
      (xs : List A) (y : A) (ys : List A) (z : A)
      → All P (xs ++ y ∷ ys)
      → P z
      → All P (xs ++ z ∷ ys)
  All-replace [] y ys z h hz = (hz, h.1)
  All-replace (x ∷ xs) y ys z h hz = (h.0, All-replace xs y ys z h.1 hz)

  pub All-remove : (xs : List A) (y : A) (ys : List A) → All P (xs ++ y ∷ ys) → All P (xs ++ ys)
  All-remove [] y ys h = h.1
  All-remove (x ∷ xs) y ys h = (h.0, All-remove xs y ys h.1)

pub All-get {ℓ κ} :
    {A : Type ℓ} (P : A → Type κ) (xs : List A) (i : ℕ) (x : A)
    → All P xs
    → get_elem? xs i ≡ some x
    → P x
All-get P [] i x h e = absurd (cc e)
All-get P (y ∷ ys) zero x h e = subst P (cc e) h.0
All-get P (y ∷ ys) (suc i) x h e = All-get P ys i x h.1 e

module _ {ℓ κ μ} {A : Type ℓ} {P : A → Type κ} {Q : A → Type μ} where
  pub All-map : ((x : A) → P x → Q x) → (xs : List A) → All P xs → All Q xs
  All-map f [] h = tt
  All-map f (x ∷ xs) h = (f x h.0, All-map f xs h.1)

module _ {ℓ} {A : Type ℓ} (p : A → Bool) where
  pub length-filter-le : (xs : List A) → length (filter p xs) ≤ length xs
  unfolding filter
  length-filter-le [] = omega arith
  length-filter-le (x ∷ xs) = ground (arith, length-filter-le xs)

  pub filter-mem : (xs : List A) (a : A) → Mem a (filter p xs) → Mem a xs
  unfolding filter
  filter-mem [] a m = m
  filter-mem (x ∷ xs) a m = elim (Bool-cases (p x)) [
    | inl e ↦
        Or.elim Mem-prop (mem-cons.0 (rw (e, filter) at m)) (λ q. mem-cons.1 (Or.inl q))
          (λ later. mem-cons_of_mem x (filter-mem xs a later))
    | inr e ↦ mem-cons_of_mem x (filter-mem xs a (rw (e, filter) at m))
  ]

  pub filter-All : (xs : List A) → All (λ x. p x ≡ true) (filter p xs)
  unfolding filter
  filter-All [] = tt
  filter-All (x ∷ xs) = elim (Bool-cases (p x)) [
    | inl e ↦ rw (e, filter) (e, filter-All xs)
    | inr e ↦ rw (e, filter) (filter-All xs)
  ]

  pub mem-filter : (xs : List A) (a : A) → Mem a xs → p a ≡ true → Mem a (filter p xs)
  unfolding filter
  mem-filter [] a m h = m
  mem-filter (x ∷ xs) a m h = elim (Bool-cases (p x)) [
    | inl e ↦
        rw (e, filter)
          (Or.elim Mem-prop (mem-cons.0 m) (λ q. mem-cons.1 (Or.inl q))
            (λ later. mem-cons_of_mem x (mem-filter xs a later h)))
    | inr e ↦
        rw (e, filter)
          (Or.elim Mem-prop (mem-cons.0 m) (λ q. cc) (λ later. mem-filter xs a later h))
  ]

-- A member, with its place.
abbrev pub IsIn {ℓ} : {A : Type ℓ} → A → List A → Type ℓ
IsIn x xs = (i : ℕ) × (get_elem? xs i ≡ some x)

pub All-IsIn {ℓ} : {A : Type ℓ} (xs : List A) → All (λ x. IsIn x xs) xs
All-IsIn [] = tt
All-IsIn (x ∷ xs) = ((0, refl), All-map (λ y k. (suc k.0, k.1)) xs (All-IsIn xs))

module _ {ℓ κ} {A : Type ℓ} (P : A → Type κ) where
  -- Each member with its place.
  pub All-self : (xs : List A) → All P xs → All (λ x. IsIn x xs × P x) xs
  All-self [] h = tt
  All-self (x ∷ xs) h =
      (((0, refl), h.0), All-map (λ y k. ((suc k.0.0, k.0.1), k.1)) xs (All-self xs h.1))

-- ===== src/Common/Sorting.antt =====
-- Go's `sort.Slice`. It is not stable, so it is known by what its documentation promises: for an
-- order `less`, the result is a rearrangement of the input in which no later element is less than
-- an earlier one. Insertion sort keeps that promise.
use mathlib.Core.Path.{◌≡◌}
use mathlib.Core.Bool.{Bool, true, false}
use mathlib.Core.Logic.{inl, inr}
use mathlib.Core.List.Perm
use mathlib.Core.List.{List, [], ◌∷◌, Perm}
use cloud_burst_controller.Common.Tests.{if◌then◌else◌, Bool-cases}
use cloud_burst_controller.Common.Lists.{All, All-map, All-perm}

module _ {A : Type 0} (less : A → A → Bool) where
  abbrev pub IsSorted : List A → Type 0
  IsSorted [] = Unit
  IsSorted (x ∷ xs) = All (λ y. less y x ≡ false) xs × IsSorted xs

  pub record Sorter : Type 0 where
    pub sort_slice : List A → List A
    pub rearranged : (l : List A) → Perm (sort_slice l) l
    pub ordered : (l : List A) → IsSorted (sort_slice l)

  -- What `sort.Slice` asks of its argument.
  pub record IsOrder : Type 0 where
    pub asymm : (a b : A) → less a b ≡ true → less b a ≡ false
    pub trans_not : (a b c : A) → less b a ≡ false → less c b ≡ false → less c a ≡ false

  insert_sorted : A → List A → List A
  insert_sorted x [] = x ∷ []
  insert_sorted x (y ∷ ys) = if less y x then y ∷ insert_sorted x ys else x ∷ y ∷ ys

  unfoldable pub insertion_sort : List A → List A
  unfolding insert_sorted
  insertion_sort [] = []
  insertion_sort (x ∷ xs) = insert_sorted x (insertion_sort xs)

  insert_sorted-perm : (x : A) (l : List A) → Perm (insert_sorted x l) (x ∷ l)
  unfolding insert_sorted
  insert_sorted-perm x [] = Perm.rfl
  insert_sorted-perm x (y ∷ ys) = elim (Bool-cases (less y x)) [
    | inl e ↦
        rw (e, insert_sorted)
          (Perm.trans (Perm.cons y (insert_sorted-perm x ys)) (Perm.swap x y ys))
    | inr e ↦ rw (e, insert_sorted) Perm.rfl
  ]

  module _ (order : IsOrder) where
    insert_sorted-IsSorted : (x : A) (l : List A) → IsSorted l → IsSorted (insert_sorted x l)
    unfolding insert_sorted
    insert_sorted-IsSorted x [] s = (tt, tt)
    insert_sorted-IsSorted x (y ∷ ys) s = elim (Bool-cases (less y x)) [
      | inl e ↦
          rw (e, insert_sorted)
            (
              All-perm (λ z. less z y ≡ false) (λ z. hlevel) (Perm.symm (insert_sorted-perm x ys))
                  (order.asymm y x e, s.0),
              insert_sorted-IsSorted x ys s.1,
            )
      | inr e ↦ rw (e, insert_sorted) ((e, All-map (λ z h. order.trans_not x y z e h) ys s.0), s)
    ]

    pub insertion_sort-IsSorted : (l : List A) → IsSorted (insertion_sort l)
    unfolding insertion_sort
    insertion_sort-IsSorted [] = tt
    insertion_sort-IsSorted (x ∷ xs) = insert_sorted-IsSorted x _ (insertion_sort-IsSorted xs)

  pub insertion_sort-perm : (l : List A) → Perm (insertion_sort l) l
  unfolding insertion_sort
  insertion_sort-perm [] = Perm.rfl
  insertion_sort-perm (x ∷ xs) =
      Perm.trans (insert_sorted-perm x _) (Perm.cons x (insertion_sort-perm xs))

  abbrev pub insertion_sorter : IsOrder → Sorter
  insertion_sorter order = record {
    sort_slice = insertion_sort;
    rearranged = insertion_sort-perm;
    ordered = insertion_sort-IsSorted order;
  }

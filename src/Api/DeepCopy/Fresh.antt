-- ===== src/Api/DeepCopy/Fresh.antt =====
-- Commands that only add cells, and whose result depends on no older cell.
use mathlib.Core.List.{append_assoc, append-nil}
use cloud_burst_controller.Common.{
  ℕ, zero, suc, ◌≡◌, refl, sym, ap, ◌∙◌, subst, some, [], ◌∷◌, ◌++◌, length, length-append,
  get_elem?, arith,
}
use cloud_burst_controller.Api.DeepCopy.Memory.{Cell, Memory, Copy, ◌>>=◌, give, alloc, and_then}

pub get_elem?-append :
    (h more : Memory) (i : ℕ) (c : Cell) → get_elem? h i ≡ some c → get_elem? (h ++ more) i ≡ some c
get_elem?-append [] more i c e = absurd (cc e)
get_elem?-append (d ∷ h) more zero c e = e
get_elem?-append (d ∷ h) more (suc i) c e = get_elem?-append h more i c e

pub get_elem?-last :
    (h more : Memory) (c : Cell) → get_elem? ((h ++ c ∷ []) ++ more) (length h) ≡ some c
get_elem?-last [] more c = refl
get_elem?-last (d ∷ h) more c = get_elem?-last h more c

-- The command returns from this memory, with cells added at its end; and the result has the property in
-- each memory with those cells in their place, whatever the cells before and after them are.
pub record Fresh {A : Type 0} (h : Memory) (m : Copy A) (Post : Memory → A → Type 0) : Type 0 where
  pub value : A
  pub added : Memory
  pub runs : m h ≡ some (value, h ++ added)
  pub holds :
      (g : Memory) → length g ≡ length h → (more : Memory) → Post ((g ++ added) ++ more) value

pub give-Fresh :
    {A : Type 0} {Post : Memory → A → Type 0} (h : Memory) (a : A)
    → ((g : Memory) → Post g a)
    → Fresh h (give a) Post
give-Fresh h a holds = record {
  value = a;
  added = [];
  runs = ap (λ g. some (a, g)) (sym (append-nil h));
  holds = λ g same more. holds ((g ++ []) ++ more);
}

pub alloc-Fresh : (h : Memory) (c : Cell) → Fresh h (alloc c) (λ g r. get_elem? g r ≡ some c)
alloc-Fresh h c = record {
  value = length h;
  added = c ∷ [];
  runs = refl;
  holds = λ g same more.
      subst (λ n. get_elem? ((g ++ c ∷ []) ++ more) n ≡ some c) same (get_elem?-last g more c);
}

-- What the first part ends with stays true.
module _ {A B : Type 0} {Q : Memory → A → Type 0} {Post : Memory → B → Type 0} (h : Memory) where
  pub Fresh-then :
      (m : Copy A) (k : A → Copy B)
      → Fresh h m Q
      → ((a : A) (added : Memory) → Fresh (h ++ added) (k a) (λ g b. Q g a → Post g b))
      → Fresh h (m >>= k) Post
  Fresh-then m k first rest =
      let next = rest first.value first.added in
      record {
        value = next.value;
        added = first.added ++ next.added;
        runs =
            ap (λ r. and_then r k) first.runs
            ∙ next.runs
            ∙ ap (λ g. some (next.value, g)) (append_assoc h first.added next.added);
        holds = λ g same more.
            subst (λ g'. Post (g' ++ more) next.value) (append_assoc g first.added next.added)
              (next.holds (g ++ first.added) (length_lem g same first.added) more (
                subst (λ g'. Q g' first.value) (at g first.added next.added more)
                  (first.holds g same (next.added ++ more))));
      }
    where
      length_lem :
          (g : Memory)
          → length g ≡ length h
          → (added : Memory) → length (g ++ added) ≡ length (h ++ added)
      length_lem g same added = omega (arith, length-append g added, length-append h added, same)

      at :
          (g first_added next_added more : Memory)
          → (g ++ first_added) ++ (next_added ++ more) ≡ ((g ++ first_added) ++ next_added) ++ more
      at g first_added next_added more = sym (append_assoc (g ++ first_added) next_added more)

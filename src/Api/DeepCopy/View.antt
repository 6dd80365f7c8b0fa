-- ===== src/Api/DeepCopy/View.antt =====
-- What a program sees of an object through its pointers, and the laws of the copies.
use cloud_burst_controller.Common.{
  Option-cases, inl, inr, ◌≡◌, ap, ◌∙◌, Option, none, some, List, [], ◌∷◌, ◌++◌, get_elem?,
}
use cloud_burst_controller.Api.DeepCopy.Memory.{
  Ref, Memory, Copy, ◌>>=◌, give, alloc, and_then, Kind, holding, look, found,
}
use cloud_burst_controller.Api.DeepCopy.{copy_at, copy_each, assign}
use cloud_burst_controller.Api.DeepCopy.Fresh.{
  get_elem?-append, Fresh, give-Fresh, alloc-Fresh, Fresh-then,
}

-- Which value an object shows in a memory; more cells do not change that.
pub record View (R V : Type 0) : Type 1 where
  pub Sees : Memory → R → V → Type 0
  pub grows : (h more : Memory) (x : R) (v : V) → Sees h x v → Sees (h ++ more) x v

-- A struct without pointers is its own value.
abbrev pub plain : {R : Type 0} → View R R
plain = record { Sees = λ h x v. x ≡ v; grows = λ h more x v e. e }

module _ {R V : Type 0} (view : View R V) where
  abbrev pub SeesEach : Memory → List R → List V → Type 0
  SeesEach h [] [] = Unit
  SeesEach h [] (v ∷ vs) = ⊥
  SeesEach h (x ∷ xs) [] = ⊥
  SeesEach h (x ∷ xs) (v ∷ vs) = view.Sees h x v × SeesEach h xs vs

  pub SeesEach-grows :
      (h more : Memory) (xs : List R) (vs : List V) → SeesEach h xs vs → SeesEach (h ++ more) xs vs
  SeesEach-grows h more [] [] s = tt
  SeesEach-grows h more [] (v ∷ vs) s = absurd s
  SeesEach-grows h more (x ∷ xs) [] s = absurd s
  SeesEach-grows h more (x ∷ xs) (v ∷ vs) s =
      (view.grows h more x v s.0, SeesEach-grows h more xs vs s.1)

  abbrev pub each : View (List R) (List V)
  each = record { Sees = SeesEach; grows = SeesEach-grows }

  -- A value that is there.
  abbrev pub present : View R (Option V)
  present = record {
    Sees = λ h x o. (v : V) × (o ≡ some v) × view.Sees h x v;
    grows = λ h more x o s. (s.0, s.1, view.grows h more x s.0 s.2);
  }

  module _ (kind : Kind R) (at_nil : V) where
    abbrev pub SeesAt : Memory → Option Ref → V → Type 0
    SeesAt h none v = v ≡ at_nil
    SeesAt h (some r) v = (x : R) × (look kind h r ≡ some x) × view.Sees h x v

    look-append :
        (h more : Memory) (r : Ref) (x : R)
        → look kind h r ≡ some x
        → look kind (h ++ more) r ≡ some x
    look-append h more r x e = elim (Option-cases (get_elem? h r)) [
      | inl nothing ↦ absurd (cc (rw nothing at e))
      | inr (c, there) ↦ rw (get_elem?-append h more r c there) (rw there at e)
    ]

    pub SeesAt-grows :
        (h more : Memory) (o : Option Ref) (v : V) → SeesAt h o v → SeesAt (h ++ more) o v
    SeesAt-grows h more none v s = s
    SeesAt-grows h more (some r) v (x, e, s) =
        (x, look-append h more r x e, view.grows h more x v s)

    -- What a pointer shows, and this value if it is nil.
    abbrev pub through : View (Option Ref) V
    through = record { Sees = SeesAt; grows = SeesAt-grows }

-- The copy shows what the original shows.
abbrev pub Copies : {R V : Type 0} → View R V → (R → Copy R) → Type 0
Copies {R} {V} view into =
    (h : Memory) (x : R) (v : V) → view.Sees h x v → Fresh h (into x) (λ g y. view.Sees g y v)

pub assign-Copies : {R : Type 0} → Copies (plain {R = R}) assign
assign-Copies h x v e = give-Fresh h x (λ g. e)

module _ {R V : Type 0} (view : View R V) (into : R → Copy R) (copies : Copies view into) where
  pub copy_each-Copies : Copies (each view) (copy_each into)
  unfolding copy_each
  copy_each-Copies h [] [] s = give-Fresh h [] (λ g. tt)
  copy_each-Copies h [] (v ∷ vs) s = absurd s
  copy_each-Copies h (x ∷ xs) [] s = absurd s
  copy_each-Copies h (x ∷ xs) (v ∷ vs) s = Fresh-then h (into x) _ (copies h x v s.0) λ y added.
      Fresh-then (h ++ added) (copy_each into xs) _
        (copy_each-Copies (h ++ added) xs vs (SeesEach-grows view h added xs vs s.1))
        λ ys added'. give-Fresh _ (y ∷ ys) (λ g later first. (first, later))

  pub present-Copies : Copies (present view) into
  present-Copies h x o (v, e, s) =
      let fresh = copies h x v s in
      record {
        value = fresh.value;
        added = fresh.added;
        runs = fresh.runs;
        holds = λ g same more. (v, e, fresh.holds g same more);
      }

  module _ (kind : Kind R) (at_nil : V) where
    -- What is done with the content.
    abbrev store : R → Copy (Option Ref)
    store x = into x >>= λ y. alloc (kind.cell y) >>= λ out. give (some out)

    store-Fresh :
        (h : Memory) (x : R) (v : V)
        → view.Sees h x v
        → Fresh h (store x) (λ g o. (through view kind at_nil).Sees g o v)
    store-Fresh h x v s = Fresh-then h (into x) _ (copies h x v s) λ y added.
        Fresh-then (h ++ added) (alloc (kind.cell y)) _ (alloc-Fresh _ _) λ out added'.
          give-Fresh _ (some out)
            (λ g stored sees. (y, ap (holding kind) stored ∙ kind.held_cell y, sees))

    pub copy_at-Copies : Copies (through view kind at_nil) (copy_at kind into)
    unfolding copy_at
    copy_at-Copies h none v s = give-Fresh h none (λ g. s)
    copy_at-Copies h (some r) v (x, e, s) =
        let fresh = store-Fresh h x v s in
        record {
          value = fresh.value;
          added = fresh.added;
          runs = ap (λ o. and_then (found kind h o) store) e ∙ fresh.runs;
          holds = fresh.holds;
        }

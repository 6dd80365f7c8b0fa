-- ===== src/Common/Reflect.antt =====
-- Boolean tests against what they say.
use mathlib.Core.Path.{◌≡◌, refl}
use mathlib.Core.Logic.{◌↔◌, ◌⊎◌, inl, inr}
use mathlib.Core.Bool.{Bool, true, false, not, ◌&&◌, ◌||◌}
use mathlib.Core.List.{List, [], ◌∷◌}
use cloud_burst_controller.Common.Tests.{if◌then◌else◌}
use cloud_burst_controller.Common.Lists.{All, any, all}

module _ {ℓ} {A : Type ℓ} where
  -- Some member is like this.
  abbrev pub Some : (A → Type 0) → List A → Type 0
  Some P [] = ⊥
  Some P (x ∷ xs) = P x ⊎ Some P xs

-- A test says that a proposition holds.
abbrev pub Says : Bool → Type 0 → Type 0
Says b P = b ≡ true ↔ P

module _ {P Q : Type 0} where
  pub and-Says : (a b : Bool) → Says a P → Says b Q → Says (a && b) (P × Q)
  and-Says true b p q = (λ e. (p.0 refl, q.0 e), λ h. q.1 h.1)
  and-Says false b p q = (λ e. absurd (cc e), λ h. p.1 h.0)

  pub or-Says : (a b : Bool) → Says a P → Says b Q → Says (a || b) (P ⊎ Q)
  or-Says true b p q = (λ e. inl (p.0 refl), λ h. refl)
  or-Says false b p q =
      (λ e. inr (q.0 e), λ h. elim h [ inl h' ↦ absurd (cc (p.1 h')) | inr h' ↦ q.1 h' ])

  -- A conditional whose second branch is for the case that the test fails.
  pub if-Says :
      (c a b : Bool) {C : Type 0}
      → Says c C
      → Says a P
      → Says b Q
      → Says (if c then a else b) ((C × P) ⊎ ((¬ C) × Q))
  if-Says true a b c p q = (
    λ e. inl (c.0 refl, p.0 e),
    λ h. elim h [ inl h' ↦ p.1 h'.1 | inr h' ↦ absurd (h'.0 (c.0 refl)) ],
  )
  if-Says false a b c p q = (
    λ e. inr (λ hc. cc (c.1 hc), q.0 e),
    λ h. elim h [ inl h' ↦ absurd (cc (c.1 h'.0)) | inr h' ↦ q.1 h'.1 ],
  )

pub not-Says : {P : Type 0} (b : Bool) → Says b P → Says (not b) (¬ P)
not-Says true p = (λ e. absurd (cc e), λ h. absurd (h (p.0 refl)))
not-Says false p = (λ e h. cc (p.1 h), λ h. refl)

pub false-Says : Says false ⊥
false-Says = (λ e. cc e, λ h. absurd h)

pub true-Says : Says true Unit
true-Says = (λ e. tt, λ h. refl)

pub map-Says : {P Q : Type 0} (b : Bool) → (P → Q) → (Q → P) → Says b P → Says b Q
map-Says b f g p = (λ e. f (p.0 e), λ h. p.1 (g h))

module _ {A : Type 0} (test : A → Bool) (P : A → Type 0)
    (says : (x : A) → Says (test x) (P x)) where
  pub any-Says : (xs : List A) → Says (any test xs) (Some P xs)
  unfolding any
  any-Says [] = false-Says
  any-Says (x ∷ xs) = or-Says (test x) (any test xs) (says x) (any-Says xs)

  pub all-Says : (xs : List A) → Says (all test xs) (All P xs)
  unfolding all
  all-Says [] = true-Says
  all-Says (x ∷ xs) = and-Says (test x) (all test xs) (says x) (all-Says xs)

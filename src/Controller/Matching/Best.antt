-- ===== src/Controller/Matching/Best.antt =====
-- What `MatchPodToPool` returns: the most specific pool that matches, the first by name among equals.
use mathlib.Core.List.{Mem, Memᴰ, Perm}
use mathlib.Core.List.Perm
use mathlib.Core.HLevel.{Π_prop}
use mathlib.Core.Bool.{Bool-set}
use native.Mathlib.Bridge.{le_prop}
use cloud_burst_controller.Common.{
  ◌≤◌, ◌≡◌, refl, sym, pos, negsuc, true, false, Option, none, some, List, [], ◌∷◌, All, All-mem,
  Bool-cases, str_lt, str_lt-trans_not, str_lt_irrefl, eq_of_not-str_lt, ap, arith, ◌⊎◌, inl, inr,
}
use cloud_burst_controller.Common.Sorting.{Sorter, IsSorted}
use cloud_burst_controller.Kube.{Pod}
use cloud_burst_controller.Api.{BurstNodePool}
use cloud_burst_controller.Controller.Matching.{
  pod_matches_pool, pool_specificity_score, name_less, is_better, scan_pools, match_pod_to_pool,
}

-- `p` is at least as specific as `q`, and not after it by name where they are equally specific.
pub record Beats (p q : BurstNodePool) : Type 0 where
  pub specific : pool_specificity_score q ≤ pool_specificity_score p
  pub first : pool_specificity_score q ≡ pool_specificity_score p → str_lt q.name p.name ≡ false

Beats-trans : (p q r : BurstNodePool) → Beats p q → Beats q r → Beats p r
Beats-trans p q r h k = record {
  specific = omega arith;
  first = λ e.
      str_lt-trans_not p.name q.name r.name (h.first (omega (arith, h.specific, k.specific)))
        (k.first (omega (arith, h.specific, k.specific)));
}

module _ (pod : Pod) where
  abbrev Loses : BurstNodePool → BurstNodePool → Type 0
  Loses w q = pod_matches_pool pod q ≡ true → Beats w q

  -- What the loop returns when it goes on from the best pool so far.
  record Wins (best : BurstNodePool) (ps : List BurstNodePool) (r : Option BurstNodePool)
      : Type 0 where
    winner : BurstNodePool
    returned : r ≡ some winner
    origin : (winner ≡ best) ⊎ (Memᴰ winner ps × (pod_matches_pool pod winner ≡ true))
    beats_best : Beats winner best
    beats_rest : All (Loses winner) ps

  -- A step with a better pool, and one that keeps the best.
  Wins-better :
      (best p : BurstNodePool) (ps : List BurstNodePool) (r : Option BurstNodePool)
      → pod_matches_pool pod p ≡ true
      → Beats p best
      → Wins p ps r
      → Wins best (p ∷ ps) r
  Wins-better best p ps r m b w = record {
    winner = w.winner;
    returned = w.returned;
    origin = elim w.origin [
      | inl e ↦ inr (Memᴰ.head e, rw e m)
      | inr (later, matches) ↦ inr (Memᴰ.tail later, matches)
    ];
    beats_best = Beats-trans w.winner p best w.beats_best b;
    beats_rest = (λ _. w.beats_best, w.beats_rest);
  }

  Wins-worse :
      (best p : BurstNodePool) (ps : List BurstNodePool) (r : Option BurstNodePool)
      → Loses best p
      → Wins best ps r
      → Wins best (p ∷ ps) r
  Wins-worse best p ps r l w = record {
    winner = w.winner;
    returned = w.returned;
    origin = elim w.origin [
      | inl e ↦ inl e
      | inr (later, matches) ↦ inr (Memᴰ.tail later, matches)
    ];
    beats_best = w.beats_best;
    beats_rest = (λ m. Beats-trans w.winner best p w.beats_best (l m), w.beats_rest);
  }

  is_better-true :
      (p best : BurstNodePool)
      → is_better pod p (pos (pool_specificity_score best)) ≡ true
      → (pod_matches_pool pod p ≡ true) × Beats p best
  unfolding is_better
  is_better-true p best e = ground arith

  is_better-false :
      (p best : BurstNodePool)
      → name_less p best ≡ false
      → is_better pod p (pos (pool_specificity_score best)) ≡ false
      → Loses best p
  unfolding is_better
  is_better-false p best after e m = ground arith

  is_better-first_true :
      (p : BurstNodePool) → is_better pod p (negsuc 0) ≡ true → pod_matches_pool pod p ≡ true
  unfolding is_better
  is_better-first_true p e = ground arith

  is_better-first_false :
      (p : BurstNodePool) → is_better pod p (negsuc 0) ≡ false → pod_matches_pool pod p ≡ false
  unfolding is_better
  is_better-first_false p e = ground arith

  scan_pools-Wins :
      (ps : List BurstNodePool) (best : BurstNodePool)
      → IsSorted name_less ps
      → All (λ q. name_less q best ≡ false) ps
      → Wins best ps (scan_pools pod ps (some best) (pos (pool_specificity_score best)))
  unfolding scan_pools
  scan_pools-Wins [] best s after = record {
    winner = best;
    returned = refl;
    origin = inl refl;
    beats_best = record { specific = omega arith; first = λ e. str_lt_irrefl best.name };
    beats_rest = tt;
  }
  scan_pools-Wins (p ∷ ps) best s after =
      elim (Bool-cases (is_better pod p (pos (pool_specificity_score best)))) [
        | inl e ↦ rw e (
            let (matches, above) = is_better-true p best e in
            Wins-better best p ps _ matches above (scan_pools-Wins ps p s.1 s.0))
        | inr e ↦ rw e (
            Wins-worse best p ps _ (is_better-false p best after.0 e)
              (scan_pools-Wins ps best s.1 after.1))
      ]

  -- With no best pool yet the loop ends with none, or with a winner over all.
  scan_pools-cases :
      (ps : List BurstNodePool)
      → IsSorted name_less ps
      → ((scan_pools pod ps none (negsuc 0) ≡ none) × All (λ q. pod_matches_pool pod q ≡ false) ps)
        ⊎ ((w : BurstNodePool) × (scan_pools pod ps none (negsuc 0) ≡ some w)
            × Memᴰ w ps
            × (pod_matches_pool pod w ≡ true)
            × All (Loses w) ps)
  unfolding scan_pools
  scan_pools-cases [] s = inl (refl, tt)
  scan_pools-cases (p ∷ ps) s = elim (Bool-cases (is_better pod p (negsuc 0))) [
    | inl e ↦ rw e (
        let w = scan_pools-Wins ps p s.1 s.0 in
        let matches = is_better-first_true p e in
        inr (
          w.winner,
          w.returned,
          elim w.origin [ inl o ↦ Memᴰ.head o | inr o ↦ Memᴰ.tail o.0 ],
          elim w.origin [ inl o ↦ rw o matches | inr o ↦ o.1 ],
          ((λ _. w.beats_best), w.beats_rest),
        ))
    | inr e ↦ rw e (elim (scan_pools-cases ps s.1) [
      | inl (stays, others) ↦ inl (stays, (is_better-first_false p e, others))
      | inr (w, found, from, matches, rest) ↦
          inr (w, found, Memᴰ.tail from, matches, ((λ m. cc (is_better-first_false p e)), rest))
    ])
  ]

-- The specification: no pool matches, or the returned pool is one of those that do and beats them.
pub IsBestMatch : Pod → List BurstNodePool → Option BurstNodePool → Type 0
IsBestMatch pod pools none = (q : BurstNodePool) → Mem q pools → pod_matches_pool pod q ≡ false
IsBestMatch pod pools (some w) =
    Mem w pools
    × (pod_matches_pool pod w ≡ true)
    × ((q : BurstNodePool) → Mem q pools → pod_matches_pool pod q ≡ true → Beats w q)

Beats-prop : (p q : BurstNodePool) → IsProp (Beats p q)
Beats-prop p q h k = λ i. record {
  specific = le_prop h.specific k.specific i;
  first = λ e. Bool-set _ _ (h.first e) (k.first e) i;
}

Loses-prop : (pod : Pod) (w q : BurstNodePool) → IsProp (Loses pod w q)
Loses-prop pod w q = Π_prop (λ _. Beats-prop w q)

-- For every rearrangement that sorts the pools by name, `MatchPodToPool` returns a pool that matches
-- the pod, with the highest specificity score of those and the least name among these, and returns
-- nil exactly when no pool matches.
pub match_pod_to_pool-IsBestMatch :
    (sorter : Sorter name_less) (pod : Pod) (pools : List BurstNodePool)
    → IsBestMatch pod pools (match_pod_to_pool sorter pod pools)
unfolding match_pod_to_pool IsBestMatch
match_pod_to_pool-IsBestMatch sorter pod pools =
    elim (scan_pools-cases pod (sorter.sort_slice pools) (sorter.ordered pools)) [
      | inl (nil, others) ↦ rw nil (λ q m. All-mem _ (λ x. hlevel) _ others q (back q m))
      | inr (w, found, from, matches, rest) ↦ rw found (
        Perm.subset (sorter.rearranged pools) w ∣ from ∣₁,
        matches,
        λ q m. All-mem _ (Loses-prop pod w) _ rest q (back q m),
      )
    ]
  where
    back : (q : BurstNodePool) → Mem q pools → Mem q (sorter.sort_slice pools)
    back = Perm.subset (Perm.symm (sorter.rearranged pools))

IsBestMatch-perm :
    (pod : Pod) (pools pools' : List BurstNodePool) (r : Option BurstNodePool)
    → Perm pools pools'
    → IsBestMatch pod pools r
    → IsBestMatch pod pools' r
unfolding IsBestMatch
IsBestMatch-perm pod pools pools' none same h = λ q m. h q (Perm.subset (Perm.symm same) q m)
IsBestMatch-perm pod pools pools' (some w) same h =
    (Perm.subset same w h.0, h.1, λ q m. h.2 q (Perm.subset (Perm.symm same) q m))

IsBestMatch-unique :
    (pod : Pod) (pools : List BurstNodePool) (r s : Option BurstNodePool)
    → ((p q : BurstNodePool) → Mem p pools → Mem q pools → p.name ≡ q.name → p ≡ q)
    → IsBestMatch pod pools r
    → IsBestMatch pod pools s
    → r ≡ s
unfolding IsBestMatch
IsBestMatch-unique pod pools none none distinct h k = refl
IsBestMatch-unique pod pools none (some w) distinct h k = cc (h w k.0, k.1)
IsBestMatch-unique pod pools (some w) none distinct h k = cc (k w h.0, h.1)
IsBestMatch-unique pod pools (some v) (some w) distinct h k =
    let v_beats = h.2 w k.0 k.1 in
    let w_beats = k.2 v h.0 h.1 in
    let tie : pool_specificity_score w ≡ pool_specificity_score v =
      omega (arith, v_beats.specific, w_beats.specific) in
    ap some (
      distinct v w h.0 k.0
        (eq_of_not-str_lt v.name w.name (w_beats.first (sym tie)) (v_beats.first tie)))

-- With one pool to a name, the result depends neither on the order in which the pools are listed nor
-- on how `sort.Slice` treats equal elements.
pub match_pod_to_pool-perm :
    (sorter sorter' : Sorter name_less) (pod : Pod) (pools pools' : List BurstNodePool)
    → Perm pools pools'
    → ((p q : BurstNodePool) → Mem p pools → Mem q pools → p.name ≡ q.name → p ≡ q)
    → match_pod_to_pool sorter pod pools ≡ match_pod_to_pool sorter' pod pools'
match_pod_to_pool-perm sorter sorter' pod pools pools' same distinct =
    IsBestMatch-unique pod pools (match_pod_to_pool sorter pod pools)
      (match_pod_to_pool sorter' pod pools') distinct
      (match_pod_to_pool-IsBestMatch sorter pod pools)
      (IsBestMatch-perm pod pools' pools _ (Perm.symm same)
        (match_pod_to_pool-IsBestMatch sorter' pod pools'))

-- ===== src/Controller/Orphan/Runner.antt =====
-- internal/controller/orphan_reconciler.go, `orphanRunner`: the loop around `Reconcile`, which the
-- manager starts. What `select` takes at each round is a list of signals; at its end the loop waits.
use cloud_burst_controller.Common.{
  ℕ, suc, ◌+◌, ◌≡◌, refl, ap, inl, inr, pos, leb_ℤ, String, false, Option, none, some, List, [],
  ◌∷◌, Bool-cases, if◌then◌else◌, arith,
}
use cloud_burst_controller.Kube.{Duration, Node}
use cloud_burst_controller.Cloud.{CloudNode}
use cloud_burst_controller.Errors.{ok, err}
use cloud_burst_controller.Effect.{Request, list_managed_instances, Program, ret, panic, ◌>>=◌}
use cloud_burst_controller.Effect.Contract.{
  any_answer, Trace, Ensures, Ensures-then, Environment, run, EndsWell, run-EndsWell,
}
use cloud_burst_controller.Controller.NodeStatus.{Found, find_pool_and_node, has_name}
use cloud_burst_controller.Controller.Orphan.{
  remove_found, remove_from_pool_status, has_node, has_instance, in_boot_timeout, check_instance,
  check_instances, check_node, check_nodes, check_interval, boot_timeout, reconcile,
}

-- `ctx.Done()` and `ticker.C`.
pub data Signal : Type 0 where
  stop tick : Signal

module _ (configured_interval configured_timeout : Duration) where
  -- The errors of the runs are logged.
  unfoldable pub wait : List Signal → Program Unit
  wait [] = ret tt
  wait (stop ∷ signals) = ret tt
  wait (tick ∷ signals) = reconcile configured_interval configured_timeout >>= λ _. wait signals

  -- `SetupWithManager` builds the runner with `checkInterval()`; NewTicker panics at an interval that is
  -- not positive.
  unfoldable pub start : List Signal → Program Unit
  unfolding wait
  start signals =
      if leb_ℤ (check_interval configured_interval configured_timeout) (pos 0)
      then panic
      else (reconcile configured_interval configured_timeout >>= λ _. wait signals)

-- The ticks before the loop is stopped.
abbrev pub ticks : List Signal → ℕ
ticks [] = 0
ticks (stop ∷ signals) = 0
ticks (tick ∷ signals) = suc (ticks signals)

-- Each run of `Reconcile` lists the managed instances once.
abbrev pub count_run : Request → ℕ → ℕ
count_run list_managed_instances n = suc n
count_run _ n = n

abbrev pub runs : Trace → ℕ
runs [] = 0
runs (e ∷ tr) = count_run e.request (runs tr)

abbrev Ends : ℕ → Trace → Program Unit → Type 0
Ends n = Ensures any_answer (λ tr u. runs tr ≡ n)

remove_found-Ends :
    (o : Option Found) (n : ℕ) (tr : Trace) → runs tr ≡ n → Ends n tr (remove_found o)
unfolding remove_found
remove_found-Ends none n tr h = h
remove_found-Ends (some f) n tr h = (tt, λ r _. h)

remove_from_pool_status-Ends :
    (name : String) (n : ℕ) (tr : Trace) → runs tr ≡ n → Ends n tr (remove_from_pool_status name)
unfolding remove_from_pool_status
remove_from_pool_status-Ends name n tr h = (
  tt,
  elim [
    | err e ↦ λ _. h
    | ok pools ↦ λ _. remove_found-Ends (find_pool_and_node (has_name name) pools) n _ h
  ],
)

module _ (timeout : Duration) (instances : List CloudNode) (nodes : List Node) (n : ℕ) where
  check_instance-Ends :
      (cn : CloudNode) (tr : Trace) → runs tr ≡ n → Ends n tr (check_instance timeout nodes cn)
  unfolding check_instance
  check_instance-Ends cn tr h = elim (Bool-cases (has_node nodes cn.name)) [
    | inl there ↦ rw there h
    | inr absent ↦ rw absent (
      tt,
      λ t _. elim (Bool-cases (in_boot_timeout timeout cn t)) [
        | inl early ↦ rw early h
        | inr old ↦ rw old (tt, λ r _. remove_from_pool_status-Ends cn.name n _ h)
      ],
    )
  ]

  check_instances-Ends :
      (cns : List CloudNode) (tr : Trace)
      → runs tr ≡ n
      → Ends n tr (check_instances timeout nodes cns)
  unfolding check_instances
  check_instances-Ends [] tr h = h
  check_instances-Ends (cn ∷ cns) tr h =
      Ensures-then any_answer (λ tr' u. runs tr' ≡ n) (λ tr' u. runs tr' ≡ n) tr
        (check_instance timeout nodes cn) _ (check_instance-Ends cn tr h)
        (λ tr' u h'. check_instances-Ends cns tr' h')

  check_nodes-Ends :
      (ns : List Node) (tr : Trace) → runs tr ≡ n → Ends n tr (check_nodes instances ns)
  unfolding check_nodes check_node
  check_nodes-Ends [] tr h = h
  check_nodes-Ends (x ∷ ns) tr h = elim (Bool-cases (has_instance instances x.name)) [
    | inl there ↦ rw there (check_nodes-Ends ns tr h)
    | inr absent ↦ rw absent (
      tt,
      λ r _.
          Ensures-then any_answer (λ tr' u. runs tr' ≡ n) (λ tr' u. runs tr' ≡ n) _
            (remove_from_pool_status x.name) _ (remove_from_pool_status-Ends x.name n _ h)
            (λ tr' u h'. check_nodes-Ends ns tr' h'),
    )
  ]

module _ (interval timeout : Duration) where
  reconcile-counts :
      (n : ℕ) (tr : Trace)
      → runs tr ≡ n
      → Ensures any_answer (λ tr' o. runs tr' ≡ suc n) tr (reconcile interval timeout)
  unfolding reconcile
  reconcile-counts n tr h = (
    tt,
    elim [
      | err e ↦ λ _. ap suc h
      | ok instances ↦ λ _. (
        tt,
        elim [
          | err e ↦ λ _. ap suc h
          | ok nodes ↦ λ _.
              Ensures-then any_answer (λ tr' u. runs tr' ≡ suc n) (λ tr' o. runs tr' ≡ suc n) _
                (check_instances (boot_timeout interval timeout) nodes instances) _
                (check_instances-Ends (boot_timeout interval timeout) instances nodes (suc n)
                  instances _ (ap suc h))
                (λ tr' u h'.
                  Ensures-then any_answer (λ tr'' u'. runs tr'' ≡ suc n)
                    (λ tr'' o. runs tr'' ≡ suc n) tr' (check_nodes instances nodes) _
                    (check_nodes-Ends (boot_timeout interval timeout) instances nodes (suc n) nodes
                      tr' h')
                    (λ tr'' u' h''. h''))
        ],
      )
    ],
  )

  wait-counts :
      (signals : List Signal) (n m : ℕ) (tr : Trace)
      → runs tr ≡ n
      → n + ticks signals ≡ m
      → Ensures any_answer (λ tr' u. runs tr' ≡ m) tr (wait interval timeout signals)
  unfolding wait
  wait-counts [] n m tr h e = omega (arith, h, e)
  wait-counts (stop ∷ signals) n m tr h e = omega (arith, h, e)
  wait-counts (tick ∷ signals) n m tr h e =
      Ensures-then any_answer (λ tr' o. runs tr' ≡ suc n) (λ tr' u. runs tr' ≡ m) tr
        (reconcile interval timeout) _ (reconcile-counts n tr h)
        (λ tr' o h'. wait-counts signals (suc n) m tr' h' (omega (arith, e)))

  check_interval-positive : leb_ℤ (check_interval interval timeout) (pos 0) ≡ false
  unfolding check_interval
  check_interval-positive = ground arith

  -- However the interval is configured, in every environment the loop does not panic: it runs
  -- `Reconcile` once at its start and once at each tick until it is stopped, and then returns.
  pub start-runs :
      (signals : List Signal) (env : Environment) (s : env.State)
      → EndsWell any_answer
          (λ tr u. runs tr ≡ suc (ticks signals))
          (run env s [] (start interval timeout signals))
  unfolding start
  start-runs signals env s = rw check_interval-positive (
      run-EndsWell any_answer env (λ s' q. tt) (λ tr u. runs tr ≡ suc (ticks signals)) s [] _ (tt)
        (Ensures-then any_answer (λ tr o. runs tr ≡ 1) (λ tr u. runs tr ≡ suc (ticks signals)) []
          (reconcile interval timeout) (λ o. wait interval timeout signals)
          (reconcile-counts 0 [] refl)
          (λ tr o h. wait-counts signals 1 (suc (ticks signals)) tr h (omega arith))))

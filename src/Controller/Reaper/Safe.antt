-- ===== src/Controller/Reaper/Safe.antt =====
-- `ReaperReconciler.Reconcile` against every environment: what it may terminate and store.
use cloud_burst_controller.Common.{
  IsIn, ◌≡◌, refl, ◌≤ℤ◌, ltb_ℤ→le, Bool, true, false, inl, inr, Option, none, some, List, [], ◌∷◌,
  all, All-self, String, arith, Bool-cases, Option-cases,
}
use cloud_burst_controller.Kube.{Time, Duration}
use cloud_burst_controller.Api.{NodeState, running, BurstNodePool}
use cloud_burst_controller.Errors.{ok, err}
use cloud_burst_controller.Effect.{list_pools, Program, ret, since, Outcome}
use cloud_burst_controller.Effect.Contract.{event, Trace, Happened, Ensures}
use cloud_burst_controller.Controller.NodeStatus.{Found, has_name}
use cloud_burst_controller.Controller.NodeStatus.Valid.{
  IsValid, IsFound, Finds, find_pool_and_node-Finds,
}
use cloud_burst_controller.Controller.NodeReady.{is_managed}
use cloud_burst_controller.Controller.NodeStatus.Storing.{ListedPool}
use cloud_burst_controller.Controller.Reaper.{
  is_ignored, is_running, cooldown_of, in_cooldown, idle_since, update_then, check_cooldown,
  handle_idle, handle_running, handle_found, reconcile,
}
use cloud_burst_controller.Controller.Reaper.Promise.{SeenIdle, contract}
use cloud_burst_controller.Controller.Reaper.Teardown.{
  Anything, Ok, idle_since-IsCountedBy, tear_down-Ok,
}

in_cooldown-le :
    (f : Found) (idle : Duration) → in_cooldown f idle ≡ false → cooldown_of f.pool ≤ℤ idle
unfolding in_cooldown
in_cooldown-le f idle over = ltb_ℤ→le idle (cooldown_of f.pool) over

pub is_running-eq : (s : NodeState) → is_running s ≡ true → s ≡ running
unfolding is_running
is_running-eq s h = ground arith

module _ (drainer : Bool) (interval : Duration) (name : String) where
  abbrev Fine : Trace → Program Outcome → Type 0
  Fine = Ok drainer

  module _ (f : Found) (found : IsFound (has_name name) f) (valid : IsValid f.pool.status)
      (runs : f.split.entry.state ≡ running) where
    idle_since-Ok :
        (t : Option Time) (tr : Trace) (o : Outcome)
        → Fine tr (update_then (idle_since t f) (ret o))
    unfolding update_then
    idle_since-Ok t tr o =
        (idle_since-IsCountedBy name f found valid t, elim [ err e ↦ λ _. tt | ok u ↦ λ _. tt ])

    check_cooldown-Ok :
        (finished : Time) (tr : Trace)
        → f.split.entry.last_pod_finished ≡ some finished
        → Happened (ListedPool f.pool) tr
        → Happened (SeenIdle name) tr
        → Fine tr (check_cooldown drainer interval name f finished)
    unfolding check_cooldown
    check_cooldown-Ok finished tr was listed seen = (
      tt,
      λ t _. elim (Bool-cases (in_cooldown f (since t finished))) [
        | inl early ↦ rw early tt
        | inr over ↦ rw over (
            tear_down-Ok drainer name f found valid runs finished was _
              (inr listed, inr seen, inl (t, refl, in_cooldown-le f (since t finished) over)))
      ],
    )

    handle_idle-Ok :
        (tr : Trace)
        → Happened (ListedPool f.pool) tr
        → Happened (SeenIdle name) tr
        → Fine tr (handle_idle drainer interval name f)
    unfolding handle_idle
    handle_idle-Ok tr listed seen = (
      tt,
      λ t _. elim (Option-cases f.split.entry.last_pod_finished) [
        | inl never ↦ rw never (idle_since-Ok (some t) _ _)
        | inr (finished, was) ↦ rw was (check_cooldown-Ok finished _ was (inr listed) (inr seen))
      ],
    )

    handle_running-Ok :
        (tr : Trace)
        → Happened (ListedPool f.pool) tr
        → Fine tr (handle_running drainer interval name f)
    unfolding handle_running
    handle_running-Ok tr listed = (
      tt,
      elim [
        | err e ↦ λ _. tt
        | ok pods ↦ λ _. elim (Bool-cases (all is_ignored pods)) [
          | inl idle ↦ rw idle (handle_idle-Ok _ (inr listed) (inl (pods, refl, idle)))
          | inr busy ↦ rw busy (idle_since-Ok none _ _)
        ]
      ],
    )

  handle_found-Ok :
      (pools : List BurstNodePool) (tr : Trace) (o : Option Found)
      → Finds (λ p. IsIn p pools × IsValid p.status) (has_name name) o
      → Fine (event list_pools (ok pools) ∷ tr) (handle_found drainer interval name o)
  unfolding handle_found
  handle_found-Ok pools tr none h = tt
  handle_found-Ok pools tr (some f) h = elim (Bool-cases (is_running f.split.entry.state)) [
    | inl runs ↦
        rw runs (handle_running-Ok f h.1 h.0.1 (is_running-eq _ runs) _ (inl (pools, refl, h.0.0)))
    | inr other ↦ rw other tt
  ]

-- As long as the listed pools have valid statuses, `Reconcile` never panics and stores only valid
-- statuses. It terminates an instance only for a running entry of a listed pool whose node was seen
-- idle, with a stored idle time and the cooldown since then over on the clock, after the states
-- Cordoned, Draining and Terminating were stored, and, if there is a drainer, after the drain. It
-- deletes a node object only after an instance was terminated.
pub reaper-Ensures :
    (drainer : Bool) (interval : Duration) (name : String)
    → Ensures (contract drainer) Anything [] (reconcile drainer interval name)
unfolding reconcile
reaper-Ensures drainer interval name = (
  tt,
  elim [
    | err e ↦ λ _. tt
    | ok node ↦ λ _. elim (Bool-cases (is_managed node)) [
      | inl burst ↦ rw burst (
        tt,
        elim [
          | err e ↦ λ _. tt
          | ok pools ↦ λ listed. handle_found-Ok drainer interval node.name pools _ _ (
              find_pool_and_node-Finds _ (has_name node.name) pools
                (All-self (λ (p : BurstNodePool). IsValid p.status) pools listed))
        ],
      )
      | inr foreign ↦ rw foreign tt
    ]
  ],
)

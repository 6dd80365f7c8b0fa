-- ===== src/Controller/Reaper/Changes.antt =====
-- Every change that `ReaperReconciler.Reconcile` makes to a stored pool.
use cloud_burst_controller.Common.{
  IsIn, ◌≡◌, refl, inl, inr, Bool, true, false, Option, none, some, [], ◌∷◌, List, all, String,
  Bool-cases, Option-cases,
}
use cloud_burst_controller.Kube.{Time, Duration}
use cloud_burst_controller.Api.{running, cordoned, draining, terminating, BurstNodePool}
use cloud_burst_controller.Errors.{ok, err}
use cloud_burst_controller.Drain.{cordon_node, drain_timeout, drain_node}
use cloud_burst_controller.Effect.{
  list_pools, update_pool_status, terminate_node, Program, Outcome, since,
}
use cloud_burst_controller.Effect.Contract.{event, Trace, Happened, Ensures}
use cloud_burst_controller.Controller.NodeStatus.{Found, has_name}
use cloud_burst_controller.Controller.NodeStatus.Valid.{IsFound, Finds}
use cloud_burst_controller.Controller.NodeStatus.Storing.{
  ListedPool, storing, Anything, listed_found,
}
use cloud_burst_controller.Controller.NodeReady.{is_managed}
use cloud_burst_controller.Controller.Reaper.{
  is_ignored, is_running, in_state, idle_since, drop_active, update_then, if_drainer, remove_node,
  terminate, tear_down, in_cooldown, check_cooldown, handle_idle, handle_running, handle_found,
  reconcile,
}
use cloud_burst_controller.Controller.Reaper.Safe.{is_running-eq}

-- What is stored for a running entry that was found: it is left out only after the termination of its
-- instance was asked for.
pub data Reaped (tr : Trace) (f : Found) (stored : BurstNodePool) : Type 0 where
  cordoning : stored ≡ in_state cordoned f → Reaped tr f stored
  draining_off : stored ≡ in_state draining f → Reaped tr f stored
  stopping : stored ≡ in_state terminating f → Reaped tr f stored
  marked : (t : Option Time) → stored ≡ idle_since t f → Reaped tr f stored
  dropped :
      Happened (λ e. e.request ≡ terminate_node f.split.entry.instance_id) tr
      → stored ≡ drop_active f
      → Reaped tr f stored

pub record Change (tr : Trace) (stored : BurstNodePool) : Type 0 where
  pub name : String
  pub found : Found
  pub is_entry : IsFound (has_name name) found
  pub runs : found.split.entry.state ≡ running
  pub listed : Happened (ListedPool found.pool) tr
  pub reaped : Reaped tr found stored

abbrev Ok : Trace → Program Outcome → Type 0
Ok = Ensures (storing Change) Anything

module _ (name : String) (f : Found) (found : IsFound (has_name name) f)
    (runs : f.split.entry.state ≡ running) where
  abbrev Listed : Trace → Type 0
  Listed tr = Happened (ListedPool f.pool) tr

  changed : {pool : BurstNodePool} (tr : Trace) → Listed tr → Reaped tr f pool → Change tr pool
  changed tr listed reaped = record {
    name = name;
    found = f;
    is_entry = found;
    runs = runs;
    listed = listed;
    reaped = reaped;
  }

  update_then-Ok :
      (pool : BurstNodePool) (rest : Program Outcome) (tr : Trace)
      → Listed tr
      → Reaped tr f pool
      → ((u : Unit) → Ok (event (update_pool_status pool) (ok u) ∷ tr) rest)
      → Ok tr (update_then pool rest)
  unfolding update_then
  update_then-Ok pool rest tr listed reaped h =
      (changed tr listed reaped, elim [ err e ↦ λ _. tt | ok u ↦ λ _. h u ])

  -- The drainer's calls leave the pool listed.
  cordon-Ok :
      (drainer : Bool) (rest : Program Outcome) (tr : Trace)
      → ((tr' : Trace) → Listed tr' → Ok tr' rest)
      → Listed tr
      → Ok tr (if_drainer drainer (cordon_node name) rest)
  unfolding if_drainer cordon_node
  cordon-Ok false rest tr h listed = h tr listed
  cordon-Ok true rest tr h listed = (
    tt,
    elim [ err e ↦ λ _. h _ (inr listed) | ok node ↦ λ _. (tt, λ r _. h _ (inr (inr listed))) ],
  )

  drain-Ok :
      (drainer : Bool) (rest : Program Outcome) (tr : Trace)
      → ((tr' : Trace) → Listed tr' → Ok tr' rest)
      → Listed tr
      → Ok tr (if_drainer drainer (drain_node drain_timeout name) rest)
  unfolding if_drainer drain_node
  drain-Ok false rest tr h listed = h tr listed
  drain-Ok true rest tr h listed =
      (tt, elim [ err e ↦ λ _. h _ (inr listed) | ok u ↦ λ _. h _ (inr listed) ])

  terminate-Ok : (tr : Trace) → Listed tr → Ok tr (terminate name f)
  unfolding terminate remove_node
  terminate-Ok tr listed = (
    tt,
    elim [
      | err e ↦ λ _. tt
      | ok u ↦ λ _. (
        tt,
        λ r _. (
          changed _ (inr (inr listed)) (dropped (inr (inl refl)) refl),
          elim [ err e ↦ λ _. tt | ok u' ↦ λ _. tt ],
        ),
      )
    ],
  )

  tear_down-Ok : (drainer : Bool) (tr : Trace) → Listed tr → Ok tr (tear_down drainer name f)
  unfolding tear_down
  tear_down-Ok drainer tr listed = update_then-Ok _ _ tr listed (cordoning refl) λ u.
      cordon-Ok drainer _ _
        (λ tr' listed'. update_then-Ok _ _ tr' listed' (draining_off refl) λ u'.
          drain-Ok drainer _ _
            (λ tr'' listed''.
              update_then-Ok _ _ tr'' listed'' (stopping refl) λ u''. terminate-Ok _ (inr listed''))
            (inr listed'))
        (inr listed)

  module _ (drainer : Bool) (interval : Duration) where
    handle_idle-Ok : (tr : Trace) → Listed tr → Ok tr (handle_idle drainer interval name f)
    unfolding handle_idle check_cooldown
    handle_idle-Ok tr listed = (
      tt,
      λ t _. elim (Option-cases f.split.entry.last_pod_finished) [
        | inl never ↦ rw never (update_then-Ok _ _ _ (inr listed) (marked (some t) refl) (λ u. tt))
        | inr (finished, was) ↦ rw was (
          tt,
          λ t' _. elim (Bool-cases (in_cooldown f (since t' finished))) [
            | inl early ↦ rw early tt
            | inr over ↦ rw over (tear_down-Ok drainer _ (inr (inr listed)))
          ],
        )
      ],
    )

    handle_running-Ok : (tr : Trace) → Listed tr → Ok tr (handle_running drainer interval name f)
    unfolding handle_running
    handle_running-Ok tr listed = (
      tt,
      elim [
        | err e ↦ λ _. tt
        | ok pods ↦ λ _. elim (Bool-cases (all is_ignored pods)) [
          | inl idle ↦ rw idle (handle_idle-Ok _ (inr listed))
          | inr busy ↦ rw busy (update_then-Ok _ _ _ (inr listed) (marked none refl) (λ u. tt))
        ]
      ],
    )

handle_found-Ok :
    (drainer : Bool) (interval : Duration) (name : String) (pools : List BurstNodePool) (tr : Trace)
    (o : Option Found)
    → Finds (λ p. IsIn p pools × Unit) (has_name name) o
    → Ok (event list_pools (ok pools) ∷ tr) (handle_found drainer interval name o)
unfolding handle_found
handle_found-Ok drainer interval name pools tr none h = tt
handle_found-Ok drainer interval name pools tr (some f) h =
    elim (Bool-cases (is_running f.split.entry.state)) [
      | inl runs ↦ rw runs (
          handle_running-Ok name f h.1 (is_running-eq _ runs) drainer interval _
            (inl (pools, refl, h.0.0)))
      | inr other ↦ rw other tt
    ]

-- Whatever the responses are, each pool that `Reconcile` stores is such a change, and it never panics.
pub reaper-Changes :
    (drainer : Bool) (interval : Duration) (name : String) → Ok [] (reconcile drainer interval name)
unfolding reconcile
reaper-Changes drainer interval name = (
  tt,
  elim [
    | err e ↦ λ _. tt
    | ok node ↦ λ _. elim (Bool-cases (is_managed node)) [
      | inl burst ↦ rw burst (
        tt,
        elim [
          | err e ↦ λ _. tt
          | ok pools ↦ λ _.
              handle_found-Ok drainer interval node.name pools _ _
                (listed_found (has_name node.name) pools)
        ],
      )
      | inr foreign ↦ rw foreign tt
    ]
  ],
)

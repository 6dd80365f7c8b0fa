-- ===== src/Controller/Reaper/Teardown.antt =====
-- The teardown of `ReaperReconciler.Reconcile` keeps the order of its steps and the statuses valid.
use cloud_burst_controller.Common.{
  ℕ, suc, ◌+◌, pos, ◌≡◌, refl, Bool, true, false, inl, inr, Option, some, ◌∷◌, String, arith,
}
use cloud_burst_controller.Kube.{Time}
use cloud_burst_controller.Api.{NodeState, running, cordoned, draining, terminating}
use cloud_burst_controller.Errors.{ok, err}
use cloud_burst_controller.Effect.{update_pool_status, Program, Outcome}
use cloud_burst_controller.Effect.Contract.{Event, event, Trace, Happened, Ensures}
use cloud_burst_controller.Drain.{cordon_node, drain_timeout, drain_node}
use cloud_burst_controller.Controller.NodeStatus.{Found, without_entry, at_least_zero, has_name}
use cloud_burst_controller.Controller.NodeStatus.Valid.{
  pending_weight, active_weight, IsValid, IsFound, others, decrement_pos, pending_found,
  active_found, range_found, with_entry-IsCountedBy, plus_slack_lem, IsCountedBy,
}
use cloud_burst_controller.Controller.NodeStatus.Storing.{ListedPool}
use cloud_burst_controller.Controller.Reaper.{
  in_state, idle_since, drop_active, update_then, if_drainer, remove_node, terminate, tear_down,
}
use cloud_burst_controller.Controller.Reaper.Promise.{
  SeenIdle, CooledDown, Stored, Drained, MayTerminate, Terminated, contract,
}

abbrev pub Anything : Trace → Outcome → Type 0
Anything tr o = Unit

module _ (name : String) (f : Found) (found : IsFound (has_name name) f) {slack : ℕ}
    (counted : IsCountedBy slack f.pool.status) where
  pub idle_since-IsCountedBy : (t : Option Time) → IsCountedBy slack (idle_since t f).status
  unfolding idle_since
  idle_since-IsCountedBy t =
      with_entry-IsCountedBy _ f found counted (record f.split.entry { last_pod_finished = t }) refl
        refl

  module _ (runs : f.split.entry.state ≡ running) where
    -- A running entry may go to any state but pending.
    pub in_state-IsCountedBy :
        (state : NodeState)
        → pending_weight state ≡ 0
        → active_weight state ≡ 1
        → IsCountedBy slack (in_state state f).status
    unfolding in_state
    in_state-IsCountedBy state p a =
        with_entry-IsCountedBy _ f found counted (record f.split.entry { state = state })
          (rw (p, runs)) (rw (a, runs))

    active_is : f.pool.status.active_nodes ≡ pos (suc (slack + others active_weight f))
    active_is =
        rw
          (
            active_found _ f found counted,
            runs,
            plus_slack_lem slack (active_weight running + others active_weight f),
          )
          (ground arith)

    pub drop_active-IsCountedBy : IsCountedBy slack (drop_active f).status
    unfolding drop_active without_entry at_least_zero
    drop_active-IsCountedBy =
        let range = rw runs at (range_found _ f found counted) in
        record {
          pending_counted = rw (pending_found _ f found counted, runs) (ground arith);
          active_counted =
              rw (active_is, plus_slack_lem slack (others active_weight f))
                (ground (arith, decrement_pos (slack + others active_weight f), range));
          in_range = omega (arith, range, plus_slack_lem slack (others active_weight f));
        }

module _ (drainer : Bool) where
  abbrev pub Ok : Trace → Program Outcome → Type 0
  Ok = Ensures (contract drainer) Anything

  -- Facts about what happened stay true: the rest of the program may use them after the drainer's calls.
  module _ (Facts : Trace → Type 0) (later : (e : Event) (tr : Trace) → Facts tr → Facts (e ∷ tr))
      (name : String) (rest : Program Outcome) where
    cordon-Ok :
        (b : Bool)
        → ((tr : Trace) → Facts tr → Ok tr rest)
        → (tr : Trace) → Facts tr
        → Ok tr (if_drainer b (cordon_node name) rest)
    unfolding if_drainer cordon_node
    cordon-Ok false k tr facts = k tr facts
    cordon-Ok true k tr facts = (
      tt,
      elim [
        | err e ↦ λ _. k _ (later _ _ facts)
        | ok node ↦ λ _. (tt, λ r _. k _ (later _ _ (later _ _ facts)))
      ],
    )

    drain-Ok :
        (b : Bool)
        → ((tr : Trace) → Facts tr → (b ≡ true → Happened (Drained name) tr) → Ok tr rest)
        → (tr : Trace) → Facts tr
        → Ok tr (if_drainer b (drain_node drain_timeout name) rest)
    unfolding if_drainer drain_node
    drain-Ok false k tr facts = k tr facts (λ e. cc)
    drain-Ok true k tr facts = (
      tt,
      elim [
        | err e ↦ λ _. k _ (later _ _ facts) (λ _. inl (err e, refl))
        | ok u ↦ λ _. k _ (later _ _ facts) (λ _. inl (ok u, refl))
      ],
    )

  module _ (name : String) (f : Found) (found : IsFound (has_name name) f)
      (valid : IsValid f.pool.status) (runs : f.split.entry.state ≡ running) where
    remove_node-Ok : (tr : Trace) → Happened Terminated tr → Ok tr (remove_node name f)
    unfolding remove_node
    remove_node-Ok tr gone = (
      gone,
      λ r _. (
        drop_active-IsCountedBy name f found valid runs,
        elim [ err e ↦ λ _. tt | ok u ↦ λ _. tt ],
      ),
    )

    terminate-Ok :
        (tr : Trace) → MayTerminate drainer tr f.split.entry.instance_id → Ok tr (terminate name f)
    unfolding terminate
    terminate-Ok tr may = (
      may,
      elim [
        | err e ↦ λ _. tt
        | ok u ↦ λ _. remove_node-Ok _ (inl (f.split.entry.instance_id, u, refl))
      ],
    )

    update_then-Ok :
        (state : NodeState) (rest : Program Outcome) (tr : Trace)
        → pending_weight state ≡ 0
        → active_weight state ≡ 1
        → ((u : Unit) → Ok (event (update_pool_status (in_state state f)) (ok u) ∷ tr) rest)
        → Ok tr (update_then (in_state state f) rest)
    unfolding update_then
    update_then-Ok state rest tr p a k = (
      in_state-IsCountedBy name f found valid runs state p a,
      elim [ err e ↦ λ _. tt | ok u ↦ λ _. k u ],
    )

    module _ (finished : Time) (was_idle : f.split.entry.last_pod_finished ≡ some finished) where
      -- What is known when the teardown begins, and after each stored state.
      abbrev pub Begins : Trace → Type 0
      Begins tr =
          Happened (ListedPool f.pool) tr
          × Happened (SeenIdle name) tr
          × Happened (CooledDown f finished) tr

      abbrev Cordoned : Trace → Type 0
      Cordoned tr = Begins tr × Happened (Stored cordoned f) tr

      abbrev Draining : Trace → Type 0
      Draining tr = Cordoned tr × Happened (Stored draining f) tr

      Begins-later : (e : Event) (tr : Trace) → Begins tr → Begins (e ∷ tr)
      Begins-later e tr (a, b, c) = (inr a, inr b, inr c)

      Cordoned-later : (e : Event) (tr : Trace) → Cordoned tr → Cordoned (e ∷ tr)
      Cordoned-later e tr (a, b) = (Begins-later e tr a, inr b)

      Draining-later : (e : Event) (tr : Trace) → Draining tr → Draining (e ∷ tr)
      Draining-later e tr (a, b) = (Cordoned-later e tr a, inr b)

      pub tear_down-Ok : (tr : Trace) → Begins tr → Ok tr (tear_down drainer name f)
      unfolding tear_down
      tear_down-Ok tr begins = update_then-Ok cordoned _ tr refl refl λ u.
          cordon-Ok Cordoned Cordoned-later name _ drainer
            (λ tr' facts. update_then-Ok draining _ tr' refl refl λ u'.
              drain-Ok Draining Draining-later name _ drainer
                (λ tr'' facts' dried. update_then-Ok terminating _ tr'' refl refl λ u''.
                  terminate-Ok _ (record {
                    name = name;
                    found = f;
                    finished = finished;
                    is_entry = found;
                    has_id = refl;
                    was_running = runs;
                    was_idle = was_idle;
                    listed = inr facts'.0.0.0;
                    seen_idle = inr facts'.0.0.1;
                    cooled_down = inr facts'.0.0.2;
                    stored_cordoned = inr facts'.0.1;
                    stored_draining = inr facts'.1;
                    stored_terminating = inl (u'', refl);
                    drained = λ d. inr (dried d);
                  }))
                _ (Cordoned-later _ tr' facts, inl (u', refl)))
            _ (Begins-later _ tr begins, inl (u, refl))

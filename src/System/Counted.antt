-- ===== src/System/Counted.antt =====
-- All four reconcilers, with counters that may count more active nodes than there are entries.
use cloud_burst_controller.Common.{
  suc, ◌≡◌, ◌≢◌, ◌⊎◌, inl, inr, refl, String, [], All-get, subst, sym,
}
use cloud_burst_controller.Api.{
  NodeState, pending, running, cordoned, draining, terminating, BurstNodePool,
}
use cloud_burst_controller.Errors.{ok}
use cloud_burst_controller.Effect.{
  Request, Response, list_pods, get_pool, update_pool_status, Program, Outcome,
}
use cloud_burst_controller.Effect.Contract.{
  Event, Trace, Happened, Ensures, Ensures-weaken, Met, Met-Happened, Ensures-Met,
}
use cloud_burst_controller.Controller.NodeStatus.{Found, has_name}
use cloud_burst_controller.Controller.NodeStatus.Valid.{IsFound, IsCounted}
use cloud_burst_controller.Controller.NodeStatus.Storing.{ListedPool, OnlyStores, storing, Anything}
use cloud_burst_controller.Controller.NodeReady.{is_pending_entry}
use cloud_burst_controller.Controller.NodeReady.Safe.{
  mark_running-IsCountedBy, drop_pending-IsCountedBy,
}
use cloud_burst_controller.Controller.NodeReady.Changes.{
  Booted, made_ready, given_up, node_ready-Changes,
}
use cloud_burst_controller.Controller.NodeReady
use cloud_burst_controller.Controller.Reaper.Teardown.{
  idle_since-IsCountedBy, in_state-IsCountedBy, drop_active-IsCountedBy,
}
use cloud_burst_controller.Controller.Reaper.Changes.{
  Reaped, cordoning, draining_off, stopping, marked, dropped, reaper-Changes,
}
use cloud_burst_controller.Controller.Reaper
use cloud_burst_controller.Controller.Orphan.{remove_entry}
use cloud_burst_controller.Controller.Orphan.Removal.{
  remove_entry-IsCountedBy, remove_entry-IsCountedBy-suc,
}
use cloud_burst_controller.Controller.Orphan.Changes.{orphan-Changes}
use cloud_burst_controller.Controller.Orphan
use cloud_burst_controller.Controller.Provisioner.Counted
use cloud_burst_controller.Controller.Provisioner.Safe.{provisioner-Counts}
use cloud_burst_controller.System.{
  Config, provision, make_ready, reap, program_of, Work, on_event, check_orphans, program_of_work,
}
use cloud_burst_controller.System.Sound.{IsSoundFor, Assume, Promise, shared}

-- A listed pool counts its entries.
listed-IsCounted :
    (tr : Trace) (p : BurstNodePool)
    → Met (shared IsCounted) tr
    → Happened (ListedPool p) tr
    → IsCounted p.status
listed-IsCounted tr p met h =
    let (e, (pools, same, (i, at)), assumed) =
      Met-Happened (shared IsCounted) (ListedPool p) tr met h in
    let sound = subst (λ (e : Event). Assume IsCounted e.request e.response) same assumed in
    (All-get (IsSoundFor IsCounted) pools i p sound at).0

IsCounted-by :
    (p stored : BurstNodePool) → stored ≡ p → IsCounted p.status → IsCounted stored.status
IsCounted-by p stored same counted =
    subst (λ (q : BurstNodePool). IsCounted q.status) (sym same) counted

Booted-IsCounted :
    (name : String) (f : Found) (is_entry : IsFound (is_pending_entry name) f) (tr : Trace)
    (stored : BurstNodePool)
    → Booted tr f stored
    → IsCounted f.pool.status
    → IsCounted stored.status
Booted-IsCounted name f is_entry tr stored (made_ready t same) (slack, counted) =
    IsCounted-by _ stored same (slack, mark_running-IsCountedBy name f is_entry counted t)
Booted-IsCounted name f is_entry tr stored (given_up asked same) (slack, counted) =
    IsCounted-by _ stored same (slack, drop_pending-IsCountedBy name f is_entry counted)

Reaped-IsCounted :
    (name : String) (f : Found) (is_entry : IsFound (has_name name) f)
    (runs : f.split.entry.state ≡ running) (tr : Trace) (stored : BurstNodePool)
    → Reaped tr f stored
    → IsCounted f.pool.status
    → IsCounted stored.status
Reaped-IsCounted name f is_entry runs tr stored (cordoning same) (slack, counted) =
    IsCounted-by _ stored same
      (slack, in_state-IsCountedBy name f is_entry counted runs cordoned refl refl)
Reaped-IsCounted name f is_entry runs tr stored (draining_off same) (slack, counted) =
    IsCounted-by _ stored same
      (slack, in_state-IsCountedBy name f is_entry counted runs draining refl refl)
Reaped-IsCounted name f is_entry runs tr stored (stopping same) (slack, counted) =
    IsCounted-by _ stored same
      (slack, in_state-IsCountedBy name f is_entry counted runs terminating refl refl)
Reaped-IsCounted name f is_entry runs tr stored (marked t same) (slack, counted) =
    IsCounted-by _ stored same (slack, idle_since-IsCountedBy name f is_entry counted t)
Reaped-IsCounted name f is_entry runs tr stored (dropped asked same) (slack, counted) =
    IsCounted-by _ stored same (slack, drop_active-IsCountedBy name f is_entry counted runs)

terminating_cases : (state : NodeState) → (state ≡ terminating) ⊎ (state ≢ terminating)
terminating_cases terminating = inl refl
terminating_cases pending = inr (λ e. cc e)
terminating_cases running = inr (λ e. cc e)
terminating_cases cordoned = inr (λ e. cc e)
terminating_cases draining = inr (λ e. cc e)

-- The removal of a terminating entry leaves its node counted.
removed-IsCounted :
    (name : String) (f : Found)
    → IsFound (has_name name) f
    → IsCounted f.pool.status
    → IsCounted (remove_entry f).status
removed-IsCounted name f is_entry (slack, counted) = elim (terminating_cases f.split.entry.state) [
  | inl gone ↦ (suc slack, remove_entry-IsCountedBy-suc _ f is_entry counted gone)
  | inr other ↦ (slack, remove_entry-IsCountedBy _ f is_entry counted other)
]

-- A program whose changes keep listed pools counted keeps the shared contract.
changes-Counted :
    (Change : Trace → BurstNodePool → Type 0) (m : Program Outcome)
    → ((tr : Trace) (pool : BurstNodePool)
        → Met (shared IsCounted) tr
        → Change tr pool
        → IsCounted pool.status)
    → Ensures (storing Change) Anything [] m
    → Ensures (shared IsCounted) Anything [] m
changes-Counted Change m counted h =
    Ensures-Met (storing Change) (shared IsCounted) (λ q r a. tt) promised Anything [] m tt h
  where
    promised :
        (tr : Trace) (q : Request)
        → Met (shared IsCounted) tr
        → OnlyStores Change tr q
        → Promise IsCounted tr q
    promised tr (update_pool_status pool) met change = counted tr pool met change
    promised tr _ met change = tt

provisioner_assumes : (q : Request) (r : Response q) → Assume IsCounted q r → Counted.Assume q r
provisioner_assumes (get_pool key) (ok pool) h = h
provisioner_assumes list_pods (ok pods) h = h
provisioner_assumes _ _ h = tt

provisioner_promises : (tr : Trace) (q : Request) → Counted.Promise tr q → Promise IsCounted tr q
provisioner_promises tr (update_pool_status pool) h = (h.slack, h.after)
provisioner_promises tr _ h = tt

-- Each of the reconcilers keeps the shared contract.
pub program_of_work-Ensures :
    (cfg : Config) (work : Work) → Ensures (shared IsCounted) Anything [] (program_of_work cfg work)
unfolding program_of_work program_of
program_of_work-Ensures cfg (on_event (provision key)) =
    Ensures-weaken Counted.contract (shared IsCounted) provisioner_assumes provisioner_promises
      Anything [] _
      (provisioner-Counts cfg.yaml cfg.sort_pools cfg.sort_types cfg.debounce_period key)
program_of_work-Ensures cfg (on_event (make_ready name)) =
    changes-Counted NodeReady.Changes.Change _
      (λ tr pool met h.
        Booted-IsCounted h.name h.found h.is_entry tr pool h.booted
          (listed-IsCounted tr _ met h.listed))
      (node_ready-Changes name)
program_of_work-Ensures cfg (on_event (reap name)) =
    changes-Counted Reaper.Changes.Change _
      (λ tr pool met h.
        Reaped-IsCounted h.name h.found h.is_entry h.runs tr pool h.reaped
          (listed-IsCounted tr _ met h.listed))
      (reaper-Changes cfg.drainer cfg.reaper_interval name)
program_of_work-Ensures cfg check_orphans =
    changes-Counted Orphan.Changes.Change _
      (λ tr pool met h.
        IsCounted-by _ pool h.removed
          (removed-IsCounted h.name h.found h.is_entry (listed-IsCounted tr _ met h.listed)))
      (orphan-Changes cfg.orphan_check_interval cfg.orphan_boot_timeout)

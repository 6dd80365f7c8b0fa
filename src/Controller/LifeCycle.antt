-- ===== src/Controller/LifeCycle.antt =====
-- The life of an instance in the status of a pool, as the states of `BurstNodeStatus` in
-- api/v1alpha1/burstnodepool_types.go are meant: pending, running, cordoned, draining, terminating, and gone.
-- One store of a pool adds the launched instances, or moves one entry forward, or removes one entry.

pub mod Reaping
pub mod Booting
use cloud_burst_controller.Common.{◌≡◌, ◌⊎◌, String, List, ◌∷◌, ◌++◌}
use cloud_burst_controller.Api.{
  NodeState, pending, running, cordoned, draining, terminating, BurstNodeStatus, BurstNodePool,
}
use cloud_burst_controller.Effect.{terminate_node}
use cloud_burst_controller.Effect.Contract.{Event, Trace, Happened}
use cloud_burst_controller.Controller.Provisioner.Promise.{launches, Extends}

pub data Transition : NodeState → NodeState → Type 0 where
  become_ready : Transition pending running
  cordon : Transition running cordoned
  drain : Transition cordoned draining
  stop : Transition draining terminating

-- So many transitions, or none: never back.
pub data Forward (s : NodeState) : NodeState → Type 0 where
  still : Forward s s
  then_move : {t u : NodeState} → Forward s t → Transition t u → Forward s u

-- An entry that stays that of its node and its instance.
pub record Advances (a b : BurstNodeStatus) : Type 0 where
  pub name : b.name ≡ a.name
  pub instance_id : b.instance_id ≡ a.instance_id
  pub instance_type : b.instance_type ≡ a.instance_type
  pub launched_at : b.launched_at ≡ a.launched_at
  pub state : Forward a.state b.state

-- The termination of the instance was asked for.
abbrev pub AsksToEnd : String → Event → Type 0
AsksToEnd id e = e.request ≡ terminate_node id

-- What one store makes of the entries of a pool that was read; the instances launched in the run are
-- those of the trace.
pub data LifeStep (tr : Trace) (read stored : BurstNodePool) : Type 0 where
  launched : Extends read stored (launches tr) → LifeStep tr read stored
  moved :
      (before after : List BurstNodeStatus) (a b : BurstNodeStatus)
      → Advances a b
      → read.status.nodes ≡ before ++ a ∷ after
      → stored.status.nodes ≡ before ++ b ∷ after
      → LifeStep tr read stored
  left :
      (before after : List BurstNodeStatus) (a : BurstNodeStatus)
      → (a.state ≡ pending) ⊎ (a.state ≡ running)
      → Happened (AsksToEnd a.instance_id) tr
      → read.status.nodes ≡ before ++ a ∷ after
      → stored.status.nodes ≡ before ++ after
      → LifeStep tr read stored

-- A pool that is stored is one that was read, after one step of the life of its instances.
pub record Refines (Read : BurstNodePool → Event → Type 0) (tr : Trace) (stored : BurstNodePool)
    : Type 0 where
  pub read : BurstNodePool
  pub was_read : Happened (Read read) tr
  pub namespace : stored.namespace ≡ read.namespace
  pub name : stored.name ≡ read.name
  pub spec : stored.spec ≡ read.spec
  pub step : LifeStep tr read stored

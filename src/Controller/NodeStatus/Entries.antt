-- ===== src/Controller/NodeStatus/Entries.antt =====
-- What holds of all entries of a pool, and the changes of one entry.
use cloud_burst_controller.Common.{Bool, ◌∷◌, ◌++◌, All, All-middle, All-replace, All-remove, subst}
use cloud_burst_controller.Api.{BurstNodeStatus}
use cloud_burst_controller.Controller.NodeStatus.{Found, with_entry, without_entry}
use cloud_burst_controller.Controller.NodeStatus.Valid.{IsFound}

module _ (P : BurstNodeStatus → Type 0) (test : BurstNodeStatus → Bool) (f : Found)
    (found : IsFound test f) (all : All P f.pool.status.nodes) where
  split_all : All P (f.split.before ++ f.split.entry ∷ f.split.after)
  split_all = subst (All P) found.nodes all

  pub entry_holds : P f.split.entry
  entry_holds = All-middle P f.split.before f.split.entry f.split.after split_all

  pub with_entry-All : (entry : BurstNodeStatus) → P entry → All P (with_entry f entry).status.nodes
  unfolding with_entry
  with_entry-All entry h =
      All-replace P f.split.before f.split.entry f.split.after entry split_all h

  pub without_entry-All : All P (without_entry f).nodes
  unfolding without_entry
  without_entry-All = All-remove P f.split.before f.split.entry f.split.after split_all

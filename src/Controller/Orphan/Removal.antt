-- ===== src/Controller/Orphan/Removal.antt =====
-- `removeFromPoolStatus`: what removing an entry does to the counters.
use cloud_burst_controller.Common.{ℕ, suc, ◌+◌, ◌≡◌, ◌≢◌, pos, Bool, arith}
use cloud_burst_controller.Api.{terminating, BurstNodeStatus}
use cloud_burst_controller.Controller.NodeStatus.{Found, without_entry, at_least_zero}
use cloud_burst_controller.Controller.NodeStatus.Valid.{
  pending_weight, active_weight, weigh, IsCountedBy, plus_slack_lem, IsValid, IsFound, others,
  decrement_pos, pending_found, active_found, range_found,
}
use cloud_burst_controller.Controller.Orphan.{pending_after, active_after, remove_entry}

at_least_zero_pos : (n : ℕ) → at_least_zero (pos n) ≡ pos n
unfolding at_least_zero
at_least_zero_pos n = ground arith

module _ (test : BurstNodeStatus → Bool) (f : Found) (found : IsFound test f) where
  module _ {slack : ℕ} (counted : IsCountedBy slack f.pool.status) where
    pending_after_removal :
        at_least_zero (pending_after f.split.entry.state f.pool.status.pending_nodes)
        ≡ pos (others pending_weight f)
    unfolding pending_after
    pending_after_removal = rw (pending_found test f found counted) (
        ground (
          arith,
          range_found test f found counted,
          at_least_zero_pos (others pending_weight f),
          decrement_pos (others pending_weight f),
        ))

    active_is :
        f.pool.status.active_nodes
        ≡ pos (slack + (active_weight f.split.entry.state + others active_weight f))
    active_is = rw (
      active_found test f found counted,
      plus_slack_lem slack (active_weight f.split.entry.state + others active_weight f),
    )

    active_after_removal :
        f.split.entry.state ≢ terminating
        → at_least_zero (active_after f.split.entry.state f.pool.status.active_nodes)
          ≡ pos (slack + others active_weight f)
    unfolding active_after
    active_after_removal other = rw active_is (
        ground (
          arith,
          range_found test f found counted,
          at_least_zero_pos (slack + others active_weight f),
          decrement_pos (slack + others active_weight f),
        ))

    pub remove_entry-IsCountedBy :
        f.split.entry.state ≢ terminating → IsCountedBy slack (remove_entry f).status
    unfolding remove_entry without_entry
    remove_entry-IsCountedBy other = record {
      pending_counted = pending_after_removal;
      active_counted =
          rw (plus_slack_lem slack (others active_weight f)) (active_after_removal other);
      in_range =
          omega (
            arith,
            range_found test f found counted,
            plus_slack_lem slack (others active_weight f),
          );
    }

    active_after_terminating :
        f.split.entry.state ≡ terminating
        → at_least_zero (active_after f.split.entry.state f.pool.status.active_nodes)
          ≡ pos (suc (slack + others active_weight f))
    unfolding active_after
    active_after_terminating gone =
        rw (active_is, gone)
          (ground (arith, at_least_zero_pos (suc (slack + others active_weight f))))

    -- One more active node is counted without an entry.
    pub remove_entry-IsCountedBy-suc :
        f.split.entry.state ≡ terminating → IsCountedBy (suc slack) (remove_entry f).status
    unfolding remove_entry without_entry
    remove_entry-IsCountedBy-suc gone = record {
      pending_counted = pending_after_removal;
      active_counted =
          rw (plus_slack_lem slack (others active_weight f)) (active_after_terminating gone);
      in_range = omega (
        arith,
        rw gone at (range_found test f found counted),
        plus_slack_lem slack (others active_weight f),
      );
    }

  module _ (valid : IsValid f.pool.status) where
    -- Removing an entry found in a pool, not in the state Terminating, keeps a valid status valid: each
    -- counter is the number of the entries that are left.
    pub remove_entry-IsValid : f.split.entry.state ≢ terminating → IsValid (remove_entry f).status
    remove_entry-IsValid = remove_entry-IsCountedBy valid

    -- In a pool with a valid status, removing an entry found in the state Terminating leaves
    -- `activeNodes` as it was, one more than the entries that are left, so the status is no longer valid.
    pub remove_entry_terminating :
        f.split.entry.state ≡ terminating
        → ((remove_entry f).status.active_nodes
            ≡ pos (suc (weigh active_weight (remove_entry f).status.nodes)))
          × ¬ IsValid (remove_entry f).status
    remove_entry_terminating gone =
        let counted = remove_entry-IsCountedBy-suc valid gone in
        (
          counted.active_counted,
          λ still_valid.
              absurd (ground (arith, still_valid.active_counted, counted.active_counted)),
        )

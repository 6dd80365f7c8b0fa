-- ===== src/Drain.antt =====
-- internal/drain/drain.go. The drain itself is kubectl's `RunNodeDrain`, one request here, with the helper
-- that it is given.
use cloud_burst_controller.Common.{String, true, negsuc}
use cloud_burst_controller.Kube.{Duration}
use cloud_burst_controller.Errors.{wrapped, Result, ok, err}
use cloud_burst_controller.Effect.{
  DrainHelper, get_node, update_node, run_node_drain, seconds, Program, ret, call,
}

unfoldable pub cordon_node : String → Program (Result Unit)
cordon_node name = call (get_node name) (elim [
  | err e ↦ ret (err (wrapped "getting node" e))
  | ok node ↦ call (update_node (record node { unschedulable = true })) λ r. ret r
])

-- Pods that no controller manages are evicted too, with the grace periods of the pods, daemon sets' pods
-- are passed over, and volumes of type emptyDir are given up.
unfoldable pub drain_helper : (timeout : Duration) → DrainHelper
drain_helper timeout = record {
  force = true;
  grace_period_seconds = negsuc 0;
  ignore_all_daemon_sets = true;
  delete_empty_dir_data = true;
  timeout = timeout;
}

unfoldable pub drain_node : (timeout : Duration) → String → Program (Result Unit)
drain_node timeout name =
    call (run_node_drain (drain_helper timeout) name)
      (elim [ err e ↦ ret (err (wrapped "draining node" e)) | ok _ ↦ ret (ok tt) ])

-- The timeout of the drainer that cmd/main.go sets up.
abbrev pub drain_timeout : Duration
drain_timeout = seconds 120

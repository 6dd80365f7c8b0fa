-- ===== src/Controller/Watch/Idle.antt =====
-- Which pods keep a node from being idle: the list by the index, and the loop of `isNodeIdle`.
use cloud_burst_controller.Common.{
  ◌≡◌, ◌≢◌, ◌↔◌, ◌⊎◌, inl, inr, String, true, List, [], ◌∷◌, any, all, filter, str_eq, eq_iff, All,
  Bool-cases, arith,
}
use cloud_burst_controller.Common.Reflect.{
  Some, Says, and-Says, or-Says, map-Says, any-Says, true-Says,
}
use cloud_burst_controller.Kube.{Pod}
use cloud_burst_controller.Controller.Reaper.{is_daemon_set_pod, is_ignored}
use cloud_burst_controller.Controller.Watch.{node_name_index}

-- What a list of these pods by the index gives for a node.
unfoldable pub on_node : String → List Pod → List Pod
unfolding any
on_node name pods = filter (λ pod. any (λ n. str_eq n name) (node_name_index pod)) pods

-- It belongs to a daemon set, or it has come to its end.
abbrev pub Ignorable : Pod → Type 0
Ignorable pod =
    Some (λ kind. kind ≡ "DaemonSet") pod.owner_kinds
    ⊎ ((pod.phase ≡ "Succeeded") ⊎ (pod.phase ≡ "Failed"))

is_ignored-Says : (pod : Pod) → Says (is_ignored pod) (Ignorable pod)
unfolding is_ignored is_daemon_set_pod
is_ignored-Says pod =
    map-Says _ (elim [ inl (inl k) ↦ inl k | inl (inr s) ↦ inr (inl s) | inr f ↦ inr (inr f) ])
      (elim [ inl k ↦ inl (inl k) | inr (inl s) ↦ inl (inr s) | inr (inr f) ↦ inr f ])
      (or-Says _ _
        (or-Says _ _ (any-Says _ _ (λ kind. eq_iff kind "DaemonSet") pod.owner_kinds)
          (eq_iff pod.phase "Succeeded"))
        (eq_iff pod.phase "Failed"))

node_name_index-bound :
    (pod : Pod) (name : String)
    → name ≢ ""
    → any (λ n. str_eq n name) (node_name_index pod) ≡ str_eq pod.node_name name
unfolding node_name_index any
node_name_index-bound pod name named =
    ground (arith, eq_iff pod.node_name "", eq_iff pod.node_name name)

-- For a node with a name, all pods that the index lists for it are passed over by the loop of `isNodeIdle`
-- exactly when each of the pods is bound elsewhere, or belongs to a daemon set, or has succeeded or
-- failed.
pub on_node-Says :
    (name : String) (pods : List Pod)
    → name ≢ ""
    → all is_ignored (on_node name pods) ≡ true
      ↔ All (λ (pod : Pod). (pod.node_name ≢ name) ⊎ Ignorable pod) pods
unfolding on_node all filter
on_node-Says name [] named = true-Says
on_node-Says name (pod ∷ pods) named =
    elim (Bool-cases (any (λ n. str_eq n name) (node_name_index pod))) [
      | inl here ↦ rw here (
          and-Says _ _
            (map-Says _ inr
              (elim [
                | inl elsewhere ↦ absurd (
                    elsewhere (
                      (eq_iff pod.node_name name).0
                        (cc (here, node_name_index-bound pod name named))))
                | inr ignorable ↦ ignorable
              ])
              (is_ignored-Says pod))
            (on_node-Says name pods named))
      | inr elsewhere ↦ rw elsewhere (
          map-Says _
            (λ h. (
              inl (λ e. cc (
                elsewhere,
                node_name_index-bound pod name named,
                (eq_iff pod.node_name name).1 e,
              )),
              h,
            ))
            (λ h. h.1) (on_node-Says name pods named))
    ]

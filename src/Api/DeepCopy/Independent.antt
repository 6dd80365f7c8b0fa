-- ===== src/Api/DeepCopy/Independent.antt =====
-- The deep copies against what the originals show.
use cloud_burst_controller.Common.{◌≡◌, refl, sym, ap, ◌∙◌, Option, none, some, List, [], ◌++◌}
use cloud_burst_controller.Kube.{Time}
use cloud_burst_controller.Api.{BurstNodePool}
use cloud_burst_controller.Api.DeepCopy.Memory.{Ref, Memory, Kind}
use cloud_burst_controller.Api.DeepCopy.Kinds.{
  text_map_kind, texts_kind, instance_types_kind, node_taints_kind, toleration_rules_kind,
  resource_rules_kind, time_kind, aws_config_kind, node_statuses_kind, pool_kind, pools_kind,
  pool_list_kind,
}
use cloud_burst_controller.Api.DeepCopy.{
  copy_at, copy_each, assign, aws_config_into, match_rules_into, spec_into, time_into,
  node_status_into, status_into, pool_into, pool_list_into, RuntimeObject, pool_object, list_object,
  unless_nil, deep_copy_pool, deep_copy_pool_list, deep_copy_pool_object, deep_copy_list_object,
  deep_copy_object,
}
use cloud_burst_controller.Api.DeepCopy.Fresh.{Fresh, give-Fresh, Fresh-then}
use cloud_burst_controller.Api.DeepCopy.View.{
  plain, each, present, through, Copies, assign-Copies, copy_each-Copies, present-Copies,
  copy_at-Copies,
}
use cloud_burst_controller.Api.DeepCopy.Views
use cloud_burst_controller.Api.DeepCopy.Views.{Shown, one_pool, some_pools, SeesObject, SeesResult}

-- A slice of structs without pointers, or a map.
slice-Copies :
    {R : Type 0} (kind : Kind (List R)) → Copies (through plain kind []) (copy_at kind assign)
slice-Copies kind = copy_at-Copies plain assign assign-Copies kind []

aws_config_into-Copies : Copies Views.aws_config aws_config_into
unfolding aws_config_into
aws_config_into-Copies h c v s =
    Fresh-then h _ _ (slice-Copies instance_types_kind h c.instance_types _ s.types) λ types a.
      let s1 = Views.aws_config.grows h a c v s in
      Fresh-then _ _ _ (slice-Copies texts_kind _ c.security_group_ids _ s1.ids) λ ids b.
        let s2 = Views.aws_config.grows _ b c v s1 in
        Fresh-then _ _ _ (slice-Copies text_map_kind _ c.tags _ s2.tags) λ tags d.
          give-Fresh _ _ (λ g seen_tags seen_ids seen_types. record {
            same = s.same;
            types = seen_types;
            ids = seen_ids;
            tags = seen_tags;
          })

match_rules_into-Copies : Copies Views.match_rules match_rules_into
unfolding match_rules_into
match_rules_into-Copies h c v s =
    Fresh-then h _ _ (slice-Copies toleration_rules_kind h c.tolerations _ s.tolerations) λ ts a.
      let s1 = Views.match_rules.grows h a c v s in
      Fresh-then _ _ _ (slice-Copies text_map_kind _ c.node_affinity_labels _ s1.labels) λ ls b.
        let s2 = Views.match_rules.grows _ b c v s1 in
        Fresh-then _ _ _ (slice-Copies resource_rules_kind _ c.resources _ s2.resources) λ rs d.
          give-Fresh _ _ (λ g seen_resources seen_labels seen_tolerations. record {
            tolerations = seen_tolerations;
            labels = seen_labels;
            resources = seen_resources;
          })

aws-Copies : Copies Views.aws (copy_at aws_config_kind aws_config_into)
aws-Copies =
    copy_at-Copies (present Views.aws_config) aws_config_into
      (present-Copies Views.aws_config aws_config_into aws_config_into-Copies) aws_config_kind none

spec_into-Copies : Copies Views.spec spec_into
unfolding spec_into
spec_into-Copies h c v s = Fresh-then h _ _ (aws-Copies h c.aws _ s.aws_config) λ aws a.
    let s1 = Views.spec.grows h a c v s in
    Fresh-then _ _ _ (match_rules_into-Copies _ c.match_rules _ s1.rules) λ rules b.
      let s2 = Views.spec.grows _ b c v s1 in
      Fresh-then _ _ _ (slice-Copies text_map_kind _ c.node_labels _ s2.labels) λ labels d.
        let s3 = Views.spec.grows _ d c v s2 in
        Fresh-then _ _ _ (slice-Copies node_taints_kind _ c.node_taints _ s3.taints) λ taints e.
          give-Fresh _ _ (λ g seen_taints seen_labels seen_rules seen_aws. record {
            same = s.same;
            aws_config = seen_aws;
            rules = seen_rules;
            labels = seen_labels;
            taints = seen_taints;
          })

-- As the API machinery documents, the copy of a time is the same time.
module _ (copy_time : Time → Time) (same_time : (t : Time) → copy_time t ≡ t) where
  time_into-Copies : Copies (plain {R = Time}) (time_into copy_time)
  unfolding time_into
  time_into-Copies h t v e = give-Fresh h (copy_time t) (λ g. same_time t ∙ e)

  time-Copies : Copies Views.time (copy_at time_kind (time_into copy_time))
  time-Copies =
      copy_at-Copies (present plain) (time_into copy_time)
        (present-Copies plain (time_into copy_time) time_into-Copies) time_kind none

  node_status_into-Copies : Copies Views.node_status (node_status_into copy_time)
  unfolding node_status_into
  node_status_into-Copies h c v s =
      Fresh-then h _ _ (time_into-Copies h c.launched_at _ refl) λ launched a.
        let s1 = Views.node_status.grows h a c v s in
        Fresh-then _ _ _ (time-Copies _ c.ready_at _ s1.ready) λ ready b.
          let s2 = Views.node_status.grows _ b c v s1 in
          Fresh-then _ _ _ (time-Copies _ c.last_pod_finished _ s2.finished) λ finished d.
            give-Fresh _ _ (λ g seen_finished seen_ready same_launched. record {
              same =
                  s.same
                  ∙ ap
                      (λ t.
                        Views.node_status_of (record c { launched_at = t }) v.ready_at
                          v.last_pod_finished)
                      (sym same_launched);
              ready = seen_ready;
              finished = seen_finished;
            })

  status_into-Copies : Copies Views.status (status_into copy_time)
  unfolding status_into
  status_into-Copies h c v s =
      Fresh-then h _ _
        (copy_at-Copies (each Views.node_status) (copy_each (node_status_into copy_time))
          (copy_each-Copies Views.node_status (node_status_into copy_time) node_status_into-Copies)
          node_statuses_kind [] h c.nodes _ s.nodes)
        λ nodes a. give-Fresh _ _ (λ g seen_nodes. record {
          active_nodes = s.active_nodes;
          pending_nodes = s.pending_nodes;
          nodes = seen_nodes;
        })

  pool_into-Copies : Copies Views.pool (pool_into copy_time)
  unfolding pool_into
  pool_into-Copies h c v s = Fresh-then h _ _ (spec_into-Copies h c.spec _ s.spec_seen) λ spec a.
      let s1 = Views.pool.grows h a c v s in
      Fresh-then _ _ _ (status_into-Copies _ c.status _ s1.status_seen) λ status b.
        give-Fresh _ _ (λ g seen_status seen_spec. record {
          namespace = s.namespace;
          name = s.name;
          spec_seen = seen_spec;
          status_seen = seen_status;
        })

  pool_list_into-Copies : Copies Views.pool_list (pool_list_into copy_time)
  unfolding pool_list_into
  pool_list_into-Copies h c vs s =
      Fresh-then h _ _
        (copy_at-Copies (each Views.pool) (copy_each (pool_into copy_time))
          (copy_each-Copies Views.pool (pool_into copy_time) pool_into-Copies) pools_kind [] h
          c.items vs s)
        λ items a. give-Fresh _ _ (λ g seen_items. seen_items)

  deep_copy_pool-Copies : Copies Views.pool_pointer (deep_copy_pool copy_time)
  unfolding deep_copy_pool
  deep_copy_pool-Copies =
      copy_at-Copies (present Views.pool) (pool_into copy_time)
        (present-Copies Views.pool (pool_into copy_time) pool_into-Copies) pool_kind none

  deep_copy_pool_list-Copies : Copies Views.list_pointer (deep_copy_pool_list copy_time)
  unfolding deep_copy_pool_list
  deep_copy_pool_list-Copies =
      copy_at-Copies (present Views.pool_list) (pool_list_into copy_time)
        (present-Copies Views.pool_list (pool_list_into copy_time) pool_list_into-Copies)
        pool_list_kind none

  unless_nil-pool :
      (g : Memory) (o : Option Ref) (v : Option BurstNodePool)
      → Views.pool_pointer.Sees g o v
      → SeesResult g (unless_nil pool_object o) (one_pool v)
  unless_nil-pool g none v s = s
  unless_nil-pool g (some r) v s = s

  unless_nil-list :
      (g : Memory) (o : Option Ref) (v : Option (List BurstNodePool))
      → Views.list_pointer.Sees g o v
      → SeesResult g (unless_nil list_object o) (some_pools v)
  unless_nil-list g none v s = s
  unless_nil-list g (some r) v s = s

  -- The copy, and the original beside it.
  pub record Apart (h : Memory) (o : RuntimeObject) (shown : Shown) : Type 0 where
    pub copied : Fresh h (deep_copy_object copy_time o) (λ g r. SeesResult g r shown)
    pub original : (added : Memory) → SeesObject (h ++ added) o shown

  -- For a pointer to a pool or to a list of pools whose cells are all there, `DeepCopyObject` returns, and
  -- changes no cell but adds some. What it returns shows the same value in every memory with those cells in
  -- their place, whatever is written to the older cells or to others later; and the original shows this
  -- value whatever is written to the new cells. For a nil pointer it returns the nil interface.
  pub deep_copy_object-Apart :
      (h : Memory) (o : RuntimeObject) (shown : Shown) → SeesObject h o shown → Apart h o shown
  unfolding deep_copy_object deep_copy_pool_object deep_copy_list_object
  deep_copy_object-Apart h (pool_object o) (one_pool v) s = record {
    copied =
        Fresh-then h _ _ (deep_copy_pool-Copies h o v s)
          λ c a. give-Fresh _ _ (λ g seen. unless_nil-pool g c v seen);
    original = λ added. Views.pool_pointer.grows h added o v s;
  }
  deep_copy_object-Apart h (list_object o) (some_pools v) s = record {
    copied =
        Fresh-then h _ _ (deep_copy_pool_list-Copies h o v s)
          λ c a. give-Fresh _ _ (λ g seen. unless_nil-list g c v seen);
    original = λ added. Views.list_pointer.grows h added o v s;
  }
  deep_copy_object-Apart h (pool_object o) (some_pools v) s = absurd s
  deep_copy_object-Apart h (list_object o) (one_pool v) s = absurd s

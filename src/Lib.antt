-- ===== src/Lib.antt =====
-- A model of the cloud burst controller: a Kubernetes controller that launches cloud instances for
-- pods that no node can take, and terminates them when they are idle.
--
-- Parts, and the files that model them:
--   Common         shared names, integers with wrap-around, texts, lists, `sort.Slice` (Sorting),
--                  tests against what they say (Reflect), and maps.Copy (Overlay)
--   Kube           the Kubernetes objects, with the fields that the code uses
--   Api            api/v1alpha1/burstnodepool_types.go: the pool resource; Resolve: ResolveInstanceTypes
--     Scheme       api/v1alpha1/groupversion_info.go: the group, the version and the types
--     DeepCopy     api/v1alpha1/zz_generated.deepcopy.go; Memory and Kinds: the cells and pointers;
--                  Fresh: commands that only add cells; View and Views: which value an object shows;
--                  Independent: the copies against the originals
--   Errors         errors as values, with what errors.As and errors.IsNotFound see
--   Cloud          internal/cloud/types.go; Ec2: IsCapacityError of internal/cloud/aws/ec2.go;
--                  Ec2.Provider: EC2Provider of the same file, Launch and Listing its errors and lists
--   Talos          internal/talos/config.go; Base64: the encoding of the standard library;
--                  Patched: what a patch changes; UserData: what an instance reads
--   Drain          internal/drain/drain.go, with the options that kubectl's helper is given
--   Effect         a reconciler as a program of calls, its runs in an environment, and contracts
--   Controller     internal/controller:
--     Matching     matching.go; Best: which pool a pod is matched to;
--                  Rules: what the match rules say
--     Capacity     batch.go; Table: the instance types; Needed: how many nodes;
--                  PerNode: how many pods to a node
--     Selector     instance_selector.go; Fits: which instance types;
--                  Asked: the architecture that the pods ask for
--     NodeStatus   the entries of a pool's status; Valid: the counters are the numbers of entries, or
--                  count more active nodes; Storing: contracts on what is stored; Entries: what holds of
--                  all entries of a pool
--     Provisioner  provisioner_reconciler.go, ProvisionerReconciler
--     NodeReady    provisioner_reconciler.go, NodeReadyReconciler
--     Reaper       reaper_reconciler.go
--     Orphan       orphan_reconciler.go
--     In each of the last four, Safe proves the contract that the component states there or in Promise,
--     and Runs applies it to a run in any environment. Changes lists what is stored, whatever the
--     responses are; in Provisioner, Counted is the contract for counters that count more, proved in
--     Safe, and Exact gets that of Promise from it. Works is about runs while the services work, with
--     Provisioner.Working for the launches, Reaper.Decides about a running entry that is not torn down
--     yet, Provisioner.Fallback about launchWithFallback, Orphan.Sweep about what a sweep covers, and Orphan.Runner is orphanRunner of
--     orphan_reconciler.go.
--     LifeCycle    the life of an instance in a status, as one step from a pool that is read to the pool
--                  that is stored; Reaping and Booting: the reaper and the node-ready reconciler
--                  against it
--     Watch        the event filters and the index of the SetupWithManager functions;
--                  Dropped: what the filters lose; Idle: which pods keep a node from being idle
--   System         the reconcilers interleaved call by call over the pools that the API server stores;
--                  Sound: what each of them needs of the store and keeps; Exact: the three that react to
--                  events, with exact counters; Counted: all four, with no entry uncounted; Safety: the
--                  reachable states; LifeCycle: the three against the life of an instance; Known: which
--                  instances a run knows of; Launched: those that the cloud launched; Alone: a run by itself as
--                  steps of the system
--   Metrics        internal/metrics/metrics.go: the collectors
--   Manager        cmd/main.go with the SetupWithManager functions; Options: the flags and options;
--                  Required: the setup that
--                  has to be made; Started: what is started, and how it is set up
--   Examples       a small cluster, and each theorem applied to it
--
-- A reconciler is a `Program`: a tree of calls of the Kubernetes API, the cloud provider, the drain
-- helper, the clock and the random source. An environment, a state and a response to each call, is a
-- parameter, so that every failure and every change between two calls is covered. A contract says
-- what is assumed of the responses, and what the program keeps to at each call, given the calls before
-- it. A nil pointer dereference is `panic`. In each reconciler every stage of `Reconcile` behind a call
-- or an early return is one definition, composed as in the code. A stored object is not changed by the
-- server's answer to an update.
--
-- Numbers: an int32 or int64 is an integer, wrapped (`int32`, `int64`) where the code computes in that
-- type. A time is in nanoseconds, and `since` stops at the bounds of an int64. A float64 quotient of two
-- int32 numbers rounded up is exact, so the model rounds the natural quotient up. All loops are over
-- lists or a count, by structural recursion; there is no fuel.
--
-- Parameters: `sort.Slice` is any rearrangement that is sorted (`Sorter`); the order of a `range` over a
-- map is any (`Ranger`); the YAML package is `Talos.Yaml`; the EC2 client is `Ec2Api`; a
-- resource.Quantity is known by the three readings that the code takes of it.
--
-- The reconcilers see the cloud by requests to the environment, and EC2Provider is modelled by itself, over
-- the API of the AWS SDK. The orphan reconciler removes an entry that is being terminated without
-- counting it off, so for the system of all four a status may count active nodes that have no entry.
--
-- The deep copies work on a memory, a list of cells; a pointer, slice or map is a place in it or nil. A value
-- of Api is what an object shows there.
--
-- Not modelled: the parsing of the flags and the logger in cmd/main.go, NewEC2Provider and NewDrainer, the
-- scheme builder of api/v1alpha1/groupversion_info.go, the object metadata and the status conditions of a
-- pool, logging, and the context, clientset and output streams of the drain helper.
pub mod Common
pub mod Kube
pub mod Api
pub mod Errors
pub mod Cloud
pub mod Talos
pub mod Effect
pub mod Drain
pub mod Controller
pub mod System
pub mod Metrics
pub mod Manager
mod Examples

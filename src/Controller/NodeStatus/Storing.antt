-- ===== src/Controller/NodeStatus/Storing.antt =====
-- What a program stores, whatever the responses are.
use cloud_burst_controller.Common.{some, subst, ◌≡◌, Bool, List, [], ◌∷◌, All, All-self, IsIn}
use cloud_burst_controller.Api.{BurstNodeStatus, BurstNodePool}
use cloud_burst_controller.Errors.{ok}
use cloud_burst_controller.Effect.{Request, list_pools, update_pool_status, Outcome}
use cloud_burst_controller.Effect.Contract.{Event, event, Trace, Contract}
use cloud_burst_controller.Controller.NodeStatus.{Found, find_pool_and_node}
use cloud_burst_controller.Controller.NodeStatus.Valid.{IsFound, Finds, find_pool_and_node-Finds}

-- The pool is one of a list that was read.
abbrev pub ListedPool : BurstNodePool → Event → Type 0
ListedPool pool e =
    (pools : List BurstNodePool) × (e ≡ event list_pools (ok pools)) × IsIn pool pools

abbrev pub OnlyStores : (Trace → BurstNodePool → Type 0) → Trace → Request → Type 0
OnlyStores Change tr (update_pool_status pool) = Change tr pool
OnlyStores Change tr _ = Unit

-- Each pool that is stored is such a change, after the calls before.
abbrev pub storing : (Trace → BurstNodePool → Type 0) → Contract
storing Change = record { assume = λ q r. Unit; promise = OnlyStores Change }

abbrev pub Anything : Trace → Outcome → Type 0
Anything tr o = Unit

abbrev AnyPool : BurstNodePool → Type 0
AnyPool p = Unit

All-AnyPool : (ps : List BurstNodePool) → All AnyPool ps
All-AnyPool [] = tt
All-AnyPool (p ∷ ps) = (tt, All-AnyPool ps)

-- A search over the listed pools.
pub listed_found :
    (test : BurstNodeStatus → Bool) (pools : List BurstNodePool)
    → Finds (λ p. IsIn p pools × Unit) test (find_pool_and_node test pools)
listed_found test pools =
    find_pool_and_node-Finds _ test pools (All-self AnyPool pools (All-AnyPool pools))

-- The entry that a search returns is one of the pool's, and passes the test.
pub found_entry :
    (test : BurstNodeStatus → Bool) (pools : List BurstNodePool) (f : Found)
    → find_pool_and_node test pools ≡ some f
    → IsFound test f
found_entry test pools f e =
    (subst (Finds (λ p. IsIn p pools × Unit) test) e (listed_found test pools)).1

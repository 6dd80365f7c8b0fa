-- ===== src/System/Launched/Reached.antt =====
-- The reachable states, with the instances that the cloud launched.
use cloud_burst_controller.Common.{[], ◌∷◌, ◌++◌, All, All-map, All-middle, All-replace, subst, sym}
use cloud_burst_controller.Api.{BurstNodePool}
use cloud_burst_controller.Effect.{call}
use cloud_burst_controller.Effect.Contract.{event, Contract, Ensures, Ensures-both, both}
use cloud_burst_controller.Controller.NodeStatus.Storing.{Anything}
use cloud_burst_controller.Controller.NodeStatus.Valid.{IsValid}
use cloud_burst_controller.System.{
  History, Config, Job, Thread, thread, State, Step, spawn, advance, create, edit, restart, Reaches,
  here, next, EmptyStatus, initial, program_of,
}
use cloud_burst_controller.System.Sound
use cloud_burst_controller.System.Sound.{IsSound, SoundFor, shared, Answers-Assume, Leads-SoundFor}
use cloud_burst_controller.System.Exact.{program_of-Ensures}
use cloud_burst_controller.System.Safety.{EmptyStatus-IsValid}
use cloud_burst_controller.System.Known.{contract}
use cloud_burst_controller.System.Known.Programs.{program_of-Knows}
use cloud_burst_controller.System.Launched.{
  Owned, Seen, IsOwn, store-IsOwn, Leads-IsOwn, Leads-grows, Seen-next,
}

-- Valid statuses, and only known instances.
abbrev knowing : Contract
knowing = both contract (Sound.Promise IsValid)

abbrev Behaves : Thread → Type 0
Behaves th = Ensures knowing Anything th.trace th.rest

program_of-Behaves : (cfg : Config) (job : Job) → Behaves (thread [] (program_of cfg job))
program_of-Behaves cfg job =
    Ensures-both contract (Sound.Promise IsValid) Anything [] (program_of cfg job)
      (program_of-Knows cfg job) (program_of-Ensures cfg job)

record Inv (s : State) : Type 0 where
  pub own : IsOwn s.history
  pub sound : SoundFor IsValid s.history
  pub behaves : All Behaves s.threads
  pub seen : All (λ (th : Thread). Seen s.history.launched th.trace) s.threads

EmptyStatus-Owned : (h : History) (p : BurstNodePool) → EmptyStatus p → Owned h.launched p
EmptyStatus-Owned h p (active, pending_count, none_yet) = rw none_yet tt

-- One step of the system keeps the invariant.
Step-Inv : (cfg : Config) (s t : State) → Step (program_of cfg) s t → Inv s → Inv t
Step-Inv cfg s t (spawn job e) inv = subst Inv (sym e) (record {
  own = inv.own;
  sound = inv.sound;
  behaves = (program_of-Behaves cfg job, inv.behaves);
  seen = (λ id known. absurd known, inv.seen);
})
Step-Inv cfg s t (advance h' before rest tr q k r at_call answered led e) inv =
    let all_behave = subst (All Behaves) at_call inv.behaves in
    let (kept, goes_on) = All-middle Behaves before _ rest all_behave in
    let all_seen =
      subst (All (λ (th : Thread). Seen s.history.launched th.trace)) at_call inv.seen in
    let seen =
      All-middle (λ (th : Thread). Seen s.history.launched th.trace) before _ rest all_seen in
    let grown =
      All-map {P = λ (th : Thread). Seen s.history.launched th.trace}
        {Q = λ (th : Thread). Seen h'.launched th.trace}
        (λ th known id k. Leads-grows s.history tr seen inv.own q r h' led id (known id k))
        (before ++ thread tr (call q k) ∷ rest) all_seen in
    subst Inv (sym e) (record {
      own = Leads-IsOwn s.history tr seen inv.own q r h' kept.0 led;
      sound = Leads-SoundFor IsValid tr s.history q r h' kept.1 led inv.sound;
      behaves =
          All-replace Behaves before (thread tr (call q k)) rest (thread (event q r ∷ tr) (k r))
            all_behave (goes_on r (Answers-Assume IsValid s.history q r inv.sound answered));
      seen =
          All-replace (λ (th : Thread). Seen h'.launched th.trace) before (thread tr (call q k))
            rest (thread (event q r ∷ tr) (k r)) grown
            (Seen-next s.history tr seen inv.own q r h' answered led);
    })
Step-Inv cfg s t (create p range empty e) inv = subst Inv (sym e) (record {
  own =
      store-IsOwn s.history (p ∷ s.history.current)
        (EmptyStatus-Owned s.history p empty, inv.own.stored.0) inv.own;
  sound = (((EmptyStatus-IsValid p empty, range), inv.sound.0), inv.sound);
  behaves = inv.behaves;
  seen = inv.seen;
})
Step-Inv cfg s t (edit before rest p spec range at_pool e) inv =
    let all_sound = subst (All IsSound) at_pool inv.sound.0 in
    let all_owned = subst (All (Owned s.history.launched)) at_pool inv.own.stored.0 in
    subst Inv (sym e) (record {
      own =
          store-IsOwn s.history (before ++ (record p { spec = spec }) ∷ rest)
            (All-replace (Owned s.history.launched) before p rest (record p { spec = spec })
              all_owned (All-middle (Owned s.history.launched) before p rest all_owned))
            inv.own;
      sound = (
        All-replace IsSound before p rest (record p { spec = spec }) all_sound
            ((All-middle IsSound before p rest all_sound).0, range),
        inv.sound,
      );
      behaves = inv.behaves;
      seen = inv.seen;
    })
Step-Inv cfg s t (restart e) inv =
    subst Inv (sym e) (record { own = inv.own; sound = inv.sound; behaves = tt; seen = tt })

Reaches-Inv : (cfg : Config) {s t : State} → Inv s → Reaches (program_of cfg) s t → Inv t
Reaches-Inv cfg inv here = inv
Reaches-Inv cfg inv (next {t} {u} r step) = Step-Inv cfg t u step (Reaches-Inv cfg inv r)

-- However the runs of the three reconcilers that react to events interleave, with stale reads, failing
-- updates and launches, users' changes and restarts in between: each entry of each pool that the server
-- ever stores is of an instance that the cloud launched for the controller, and so is each instance whose
-- termination was asked for. The users give int32 maxima and create pools without nodes, and the server
-- stores no more pods than an int32 can count.
pub Reaches-IsOwn :
    (cfg : Config) (s : State) → Reaches (program_of cfg) initial s → IsOwn s.history
Reaches-IsOwn cfg s r =
    (Reaches-Inv cfg
      (record {
        own = record { stored = (tt, tt); terminated = tt };
        sound = (tt, tt);
        behaves = tt;
        seen = tt;
      })
      r).own

-- ===== src/System/Safety.antt =====
-- The reachable states of the system.
use cloud_burst_controller.Common.{List, [], ◌∷◌, All, All-middle, All-replace, subst, sym, arith}
use cloud_burst_controller.Api.{BurstNodePoolStatus, BurstNodePool}
use cloud_burst_controller.Effect.{Program, ret, panic, call, Outcome}
use cloud_burst_controller.Effect.Contract.{Trace, event, Ensures}
use cloud_burst_controller.Controller.NodeStatus.Storing.{Anything}
use cloud_burst_controller.Controller.NodeStatus.Valid.{weigh, IsValid, IsCounted}
use cloud_burst_controller.System.{
  stores, Config, Thread, thread, State, Step, spawn, advance, create, edit, restart, Reaches, here,
  next, EmptyStatus, initial, program_of, program_of_work,
}
use cloud_burst_controller.System.Sound.{
  IsSoundFor, SoundFor, IsSound, shared, Answers-Assume, Leads-SoundFor,
}
use cloud_burst_controller.System.Exact.{program_of-Ensures}
use cloud_burst_controller.System.Counted.{program_of_work-Ensures}

abbrev pub NotPanicked : Program Outcome → Type 0
NotPanicked (ret o) = Unit
NotPanicked panic = ⊥
NotPanicked (call q k) = Unit

abbrev pub NonePanicked : List Thread → Type 0
NonePanicked ths = All (λ (th : Thread). NotPanicked th.rest) ths

pub EmptyStatus-IsValid : (p : BurstNodePool) → EmptyStatus p → IsValid p.status
unfolding weigh
EmptyStatus-IsValid p (active, pending_count, none_yet) = record {
  pending_counted = rw none_yet pending_count;
  active_counted = rw none_yet active;
  in_range = rw none_yet (omega arith);
}

-- For runs that keep a condition on the statuses, which holds of a status without nodes:
module _ (Good : BurstNodePoolStatus → Type 0)
    (empty_good : (p : BurstNodePool) → EmptyStatus p → Good p.status) {J : Type 0}
    (start : J → Program Outcome)
    (keeps : (job : J) → Ensures (shared Good) Anything [] (start job)) where
  -- A reconciler that runs keeps the shared contract to its end.
  abbrev Behaves : Thread → Type 0
  Behaves th = Ensures (shared Good) Anything th.trace th.rest

  record Inv (s : State) : Type 0 where
    pub sound : SoundFor Good s.history
    pub behaves : All Behaves s.threads

  -- One step of the system keeps the invariant.
  Step-Inv : (s t : State) → Step start s t → Inv s → Inv t
  Step-Inv s t (spawn job e) inv =
      subst Inv (sym e) (record { sound = inv.sound; behaves = (keeps job, inv.behaves) })
  Step-Inv s t (advance h' before rest tr q k r at_call answered led e) inv =
      let all_behave = subst (All Behaves) at_call inv.behaves in
      let (kept, goes_on) = All-middle Behaves before _ rest all_behave in
      subst Inv (sym e) (record {
        sound = Leads-SoundFor Good tr s.history q r h' kept led inv.sound;
        behaves =
            All-replace Behaves before (thread tr (call q k)) rest (thread (event q r ∷ tr) (k r))
              all_behave (goes_on r (Answers-Assume Good s.history q r inv.sound answered));
      })
  Step-Inv s t (create p range empty e) inv = subst Inv (sym e) (record {
    sound = (((empty_good p empty, range), inv.sound.0), inv.sound);
    behaves = inv.behaves;
  })
  Step-Inv s t (edit before rest p spec range at_pool e) inv =
      let all_sound = subst (All (IsSoundFor Good)) at_pool inv.sound.0 in
      subst Inv (sym e) (record {
        sound = (
          All-replace (IsSoundFor Good) before p rest (record p { spec = spec }) all_sound
              ((All-middle (IsSoundFor Good) before p rest all_sound).0, range),
          inv.sound,
        );
        behaves = inv.behaves;
      })
  Step-Inv s t (restart e) inv = subst Inv (sym e) (record { sound = inv.sound; behaves = tt })

  Reaches-Inv : {s t : State} → Inv s → Reaches start s t → Inv t
  Reaches-Inv inv here = inv
  Reaches-Inv inv (next {t} {u} r step) = Step-Inv t u step (Reaches-Inv inv r)

  Behaves-NotPanicked : (tr : Trace) (m : Program Outcome) → Behaves (thread tr m) → NotPanicked m
  Behaves-NotPanicked tr (ret o) h = tt
  Behaves-NotPanicked tr panic h = h
  Behaves-NotPanicked tr (call q k) h = tt

  none_panicked : (ths : List Thread) → All Behaves ths → NonePanicked ths
  none_panicked [] h = tt
  none_panicked (th ∷ ths) h = (Behaves-NotPanicked th.trace th.rest h.0, none_panicked ths h.1)

  Reaches-Keeps :
      (s : State)
      → Reaches start initial s
      → All (All (IsSoundFor Good)) (stores s.history) × NonePanicked s.threads
  Reaches-Keeps s r =
      let inv = Reaches-Inv (record { sound = (tt, tt); behaves = tt }) r in
      (inv.sound, none_panicked s.threads inv.behaves)

-- However the runs of the three reconcilers that react to events interleave, with stale reads, failing
-- updates, users' changes and restarts in between, every pool that the server ever stores has counters
-- that are the numbers of its entries and fit an int32, and no reconciler panics; the users give int32
-- maxima, and the server stores no more pods than an int32 can count.
pub Reaches-IsSound :
    (cfg : Config) (s : State)
    → Reaches (program_of cfg) initial s
    → All (All IsSound) (stores s.history) × NonePanicked s.threads
Reaches-IsSound cfg =
    Reaches-Keeps IsValid EmptyStatus-IsValid (program_of cfg) (program_of-Ensures cfg)

-- However the runs of all four reconcilers interleave, with stale reads, failing updates, users' changes
-- and restarts in between, every pool that the server ever stores counts its pending entries exactly, and
-- as active nodes at least its other entries, both together within an int32; and no reconciler panics.
-- The users give int32 maxima, and the server stores no more pods than an int32 can count.
pub Reaches-IsCounted :
    (cfg : Config) (s : State)
    → Reaches (program_of_work cfg) initial s
    → All (All (IsSoundFor IsCounted)) (stores s.history) × NonePanicked s.threads
Reaches-IsCounted cfg =
    Reaches-Keeps IsCounted (λ p empty. (0, EmptyStatus-IsValid p empty)) (program_of_work cfg)
      (program_of_work-Ensures cfg)

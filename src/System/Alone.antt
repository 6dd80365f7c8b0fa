-- ===== src/System/Alone.antt =====
-- A run by itself is one of the runs of the system.
use cloud_burst_controller.Common.{[], ◌∷◌, refl}
use cloud_burst_controller.Effect.{Request, Response, Program, ret, panic, call, Outcome}
use cloud_burst_controller.Effect.Contract.{Trace, event}
use cloud_burst_controller.System.{History, Answers, Leads, thread, State, advance, Reaches, next}

-- A server that answers each request from what it stores.
pub record Server : Type 0 where
  pub answer : History → (q : Request) → Response q
  pub after : History → Request → History
  pub answers : (h : History) (q : Request) → Answers h q (answer h q)
  pub leads : (h : History) (q : Request) → Leads h q (answer h q) (after h q)

abbrev pub one_thread : History → Trace → Program Outcome → State
one_thread h tr m = record { history = h; threads = thread tr m ∷ [] }

module _ {J : Type 0} (start : J → Program Outcome) (server : Server) where
  -- The state in which the run ends.
  unfoldable pub alone : History → Trace → Program Outcome → State
  alone h tr (ret o) = one_thread h tr (ret o)
  alone h tr panic = one_thread h tr panic
  alone h tr (call q k) =
      alone (server.after h q) (event q (server.answer h q) ∷ tr) (k (server.answer h q))

  pub alone-Reaches :
      (s : State) (h : History) (tr : Trace) (m : Program Outcome)
      → Reaches start s (one_thread h tr m)
      → Reaches start s (alone h tr m)
  unfolding alone
  alone-Reaches s h tr (ret o) r = r
  alone-Reaches s h tr panic r = r
  alone-Reaches s h tr (call q k) r = alone-Reaches s (server.after h q) _ (k (server.answer h q)) (
      next r (
        advance (server.after h q) [] [] tr q k (server.answer h q) refl (server.answers h q)
          (server.leads h q) refl))

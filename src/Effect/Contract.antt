-- ===== src/Effect/Contract.antt =====
-- What a program ensures against every environment that keeps to its side of a contract.
use cloud_burst_controller.Common.{◌⊎◌, inl, inr, List, [], ◌∷◌}
use cloud_burst_controller.Errors.{Result, ok, err}
use cloud_burst_controller.Effect.{Request, Response, Program, ret, panic, call, ◌>>=◌}

-- A call that was made, with the response to it.
pub record Event : Type 0 where
  pub request : Request
  pub response : Response request

abbrev pub Trace : Type 0
Trace = List Event

abbrev pub event : (q : Request) → Response q → Event
event q r = record { request = q; response = r }

-- The calls of a trace, the latest first.
abbrev pub requests : Trace → List Request
requests [] = []
requests (e ∷ tr) = e.request ∷ requests tr

-- Some call of the trace was like this.
abbrev pub Happened : (Event → Type 0) → Trace → Type 0
Happened P [] = ⊥
Happened P (e ∷ tr) = P e ⊎ Happened P tr

pub Happened-map :
    (P Q : Event → Type 0)
    → ((e : Event) → P e → Q e)
    → (tr : Trace) → Happened P tr
    → Happened Q tr
Happened-map P Q weaker [] h = absurd h
Happened-map P Q weaker (e ∷ tr) (inl h) = inl (weaker e h)
Happened-map P Q weaker (e ∷ tr) (inr h) = inr (Happened-map P Q weaker tr h)

-- A call that succeeded.
abbrev pub Succeeded : {A : Type 0} → Result A → Type 0
Succeeded (ok a) = Unit
Succeeded (err e) = ⊥

-- The environment's side is a condition on each response, the program's side one on each request
-- after the calls before it, the latest first.
pub record Contract : Type 1 where
  pub assume : (q : Request) → Response q → Type 0
  pub promise : Trace → Request → Type 0

-- Nothing is promised of the calls; and nothing is assumed of the responses either.
abbrev pub Anywhere : Trace → Request → Type 0
Anywhere tr q = Unit

abbrev pub any_answer : Contract
any_answer = record { assume = λ q r. Unit; promise = Anywhere }

module _ (c : Contract) {A : Type 0} where
  -- The program never panics, keeps its promise at each call, and ends with `post`, whatever the
  -- responses are, as long as they meet the assumption.
  abbrev pub Ensures : (Trace → A → Type 0) → Trace → Program A → Type 0
  Ensures post tr (ret a) = post tr a
  Ensures post tr panic = ⊥
  Ensures post tr (call q k) =
      c.promise tr q × ((r : Response q) → c.assume q r → Ensures post (event q r ∷ tr) (k r))

module _ (c : Contract) {A B : Type 0} where
  Ensures-bind :
      (post : Trace → B → Type 0) (tr : Trace) (m : Program A) (f : A → Program B)
      → Ensures c (λ tr' a. Ensures c post tr' (f a)) tr m
      → Ensures c post tr (m >>= f)
  Ensures-bind post tr (ret a) f h = h
  Ensures-bind post tr panic f h = h
  Ensures-bind post tr (call q k) f h =
      (h.0, λ r assumed. Ensures-bind post _ (k r) f (h.1 r assumed))

module _ (c : Contract) {A : Type 0} (post post' : Trace → A → Type 0)
    (weaker : (tr : Trace) (a : A) → post tr a → post' tr a) where
  Ensures-map : (tr : Trace) (m : Program A) → Ensures c post tr m → Ensures c post' tr m
  Ensures-map tr (ret a) h = weaker tr a h
  Ensures-map tr panic h = h
  Ensures-map tr (call q k) h = (h.0, λ r assumed. Ensures-map _ (k r) (h.1 r assumed))

module _ (c : Contract) {A B : Type 0} (mid : Trace → A → Type 0) (post : Trace → B → Type 0) where
  -- The rest of a program may use what the first part ends with.
  pub Ensures-then :
      (tr : Trace) (m : Program A) (f : A → Program B)
      → Ensures c mid tr m
      → ((tr' : Trace) (a : A) → mid tr' a → Ensures c post tr' (f a))
      → Ensures c post tr (m >>= f)
  Ensures-then tr m f h k =
      Ensures-bind c post tr m f (Ensures-map c mid (λ tr' a. Ensures c post tr' (f a)) k tr m h)

-- What stays true as the trace grows is still true at the end.
module _ (c : Contract) {A : Type 0} (post : Trace → A → Type 0) (P : Trace → Type 0)
    (grows : (e : Event) (tr : Trace) → P tr → P (e ∷ tr)) where
  pub Ensures-keep :
      (tr : Trace) (m : Program A)
      → Ensures c post tr m
      → P tr
      → Ensures c (λ tr' a. P tr' × post tr' a) tr m
  Ensures-keep tr (ret a) h p = (p, h)
  Ensures-keep tr panic h p = h
  Ensures-keep tr (call q k) h p =
      (h.0, λ r ok. Ensures-keep _ (k r) (h.1 r ok) (grows (event q r) tr p))

-- A program that keeps a contract keeps one that assumes more and promises less.
module _ (c c' : Contract) (assumed : (q : Request) (r : Response q) → c'.assume q r → c.assume q r)
    (promised : (tr : Trace) (q : Request) → c.promise tr q → c'.promise tr q) {A : Type 0}
    (post : Trace → A → Type 0) where
  pub Ensures-weaken : (tr : Trace) (m : Program A) → Ensures c post tr m → Ensures c' post tr m
  Ensures-weaken tr (ret a) h = h
  Ensures-weaken tr panic h = h
  Ensures-weaken tr (call q k) h =
      (promised tr q h.0, λ r ok. Ensures-weaken _ (k r) (h.1 r (assumed q r ok)))

-- The responses of a trace met the assumption.
abbrev pub Met : Contract → Trace → Type 0
Met c [] = Unit
Met c (e ∷ tr) = c.assume e.request e.response × Met c tr

-- The call that happened met it.
pub Met-Happened :
    (c : Contract) (P : Event → Type 0) (tr : Trace)
    → Met c tr
    → Happened P tr
    → (e : Event) × P e × c.assume e.request e.response
Met-Happened c P [] met h = absurd h
Met-Happened c P (e ∷ tr) met (inl h) = (e, h, met.0)
Met-Happened c P (e ∷ tr) met (inr h) = Met-Happened c P tr met.1 h

-- A program that assumes more may promise what follows from its promise and what it assumed so far.
module _ (c c' : Contract) (assumed : (q : Request) (r : Response q) → c'.assume q r → c.assume q r)
    (promised : (tr : Trace) (q : Request) → Met c' tr → c.promise tr q → c'.promise tr q)
    {A : Type 0} (post : Trace → A → Type 0) where
  pub Ensures-Met :
      (tr : Trace) (m : Program A) → Met c' tr → Ensures c post tr m → Ensures c' post tr m
  Ensures-Met tr (ret a) met h = h
  Ensures-Met tr panic met h = h
  Ensures-Met tr (call q k) met h =
      (promised tr q met h.0, λ r ok. Ensures-Met _ (k r) (ok, met) (h.1 r (assumed q r ok)))

-- A program that keeps two contracts with the same assumption keeps both at once.
abbrev pub both : Contract → (Trace → Request → Type 0) → Contract
both c promise = record { assume = c.assume; promise = λ tr q. c.promise tr q × promise tr q }

module _ (c : Contract) (promise : Trace → Request → Type 0) {A : Type 0}
    (post : Trace → A → Type 0) where
  pub Ensures-both :
      (tr : Trace) (m : Program A)
      → Ensures c post tr m
      → Ensures (record { assume = c.assume; promise = promise }) post tr m
      → Ensures (both c promise) post tr m
  Ensures-both tr (ret a) h k = h
  Ensures-both tr panic h k = h
  Ensures-both tr (call q f) h k = ((h.0, k.0), λ r ok. Ensures-both _ (f r) (h.1 r ok) (k.1 r ok))

-- An environment that runs programs: a state, and a response to each request.
pub record Environment : Type 1 where
  pub State : Type 0
  pub respond : State → (q : Request) → Response q × State

pub data Ending (A : Type 0) : Type 0 where
  returned : Trace → A → Ending A
  panicked : Trace → Ending A

module _ (env : Environment) {A : Type 0} where
  open env use {State, respond}

  unfoldable pub run : State → Trace → Program A → Ending A
  run s tr (ret a) = returned tr a
  run s tr panic = panicked tr
  run s tr (call q k) = let (r, s') = respond s q in run s' (event q r ∷ tr) (k r)

-- Each response of an environment meets the assumption.
abbrev pub Meets : Environment → Contract → Type 0
Meets env c = (s : env.State) (q : Request) → c.assume q (env.respond s q).0

-- The promise was kept at each call of a trace.
abbrev pub Kept : Contract → Trace → Type 0
Kept c [] = Unit
Kept c (e ∷ tr) = c.promise tr e.request × Kept c tr

abbrev pub EndsWell : {A : Type 0} → Contract → (Trace → A → Type 0) → Ending A → Type 0
EndsWell c post (returned tr a) = Kept c tr × post tr a
EndsWell c post (panicked tr) = ⊥

-- What a program ensures holds of its run in each environment that keeps the assumption.
pub run-EndsWell :
    (c : Contract) (env : Environment)
    → Meets env c
    → {A : Type 0} (post : Trace → A → Type 0) (s : env.State) (tr : Trace) (m : Program A)
    → Kept c tr
    → Ensures c post tr m
    → EndsWell c post (run env s tr m)
unfolding run
run-EndsWell c env assumed post s tr (ret a) kept h = (kept, h)
run-EndsWell c env assumed post s tr panic kept h = h
run-EndsWell c env assumed post s tr (call q k) kept h =
    let (r, s') = env.respond s q in
    run-EndsWell c env assumed post s' (event q r ∷ tr) (k r) (h.0, kept) (h.1 r (assumed s q))

-- ===== src/RefreshQueue/Steps.antt =====
-- The events that reach a RefreshQueue (src/refresh-queue.ts), and what holds between them.
use mathlib.Core.Bool.{true≢false}
use allocube.Prelude.{
  ℕ, ◌≡◌, ◌⊎◌, refl, sym, ap, subst, ◌∙◌, arith, Bool, true, false, not, ◌&&◌, ◌||◌, Option, none,
  some, List, [], ◌∷◌, ◌++◌, filter, ◌==◌, ==_refl, if◌then◌else◌, Bool-cases, inl, inr,
}
use allocube.RefreshQueue.{
  Queue, Run, request, resume, activate, schedule, noted, declined, start_run, flush, fire,
  settle_all, finish, abort, dispose, new_queue, is_some, cleared,
}

-- One event: the calls of the object, the timer, and the end of a run in flight.
pub data Step : Queue → Queue → Type 0 where
  requested :
      {q : Queue} (visible : Bool) (args : ℕ) (urgent : Bool)
      → Step q (request visible args urgent q)
  resumed : {q : Queue} (visible : Bool) → Step q (resume visible q)
  activated : {q : Queue} → Step q (activate q)
  fired : {q : Queue} (visible : Bool) → is_some q.timer ≡ true → Step q (fire visible q)
  finished :
      {q : Queue} (visible : Bool) (value : Option ℕ) (run : Run) (before after : List Run)
      → q.runs ≡ before ++ run ∷ after
      → Step q (finish visible value run q)
  stopped : {q : Queue} → Step q (abort q)
  disposed_of : {q : Queue} → Step q (dispose q)

pub data Reachable : Queue → Type 0 where
  start : Reachable new_queue
  next : {q r : Queue} → Reachable q → Step q r → Reachable r

-- The controller is that of the only run in flight, or there is none of either.
abbrev pub OneRun : Option ℕ → List Run → Type 0
OneRun none runs = runs ≡ []
OneRun (some c) runs = (r : Run) × (runs ≡ r ∷ []) × (r.controller ≡ c)

pub record IsOrderly (q : Queue) : Type 0 where
  pub one_run : OneRun q.controller q.runs
  -- a timer waits only for a request, and only while nothing is in flight
  pub timer_alone : (q.timer ≡ none) ⊎ ((q.controller ≡ none) × (is_some q.args ≡ true))
  -- who waits has a request
  pub asked : (q.waiters ≡ []) ⊎ (is_some q.args ≡ true)
  -- a disposed queue waits for nothing
  pub quiet : (q.disposed ≡ false) ⊎ ((q.args ≡ none) × (q.waiters ≡ []) × (q.timer ≡ none))

pub is_some-false {ℓ} : {A : Type ℓ} (o : Option A) → is_some o ≡ false → o ≡ none
is_some-false none h = refl
is_some-false (some a) h = absurd (cc h)

-- Why a call of `schedule` does nothing.
abbrev pub held_back : Bool → Queue → Bool
held_back visible q =
    q.disposed
    || not (is_some q.args)
    || is_some q.controller
    || is_some q.timer
    || (not visible && not q.urgent)

schedule-IsOrderly : (visible : Bool) (q : Queue) → IsOrderly q → IsOrderly (schedule visible q)
unfolding schedule
schedule-IsOrderly visible q h = elim (Bool-cases (held_back visible q)) [
  | inl e ↦ rw e h
  | inr e ↦
      let idle : q.controller ≡ none = is_some-false q.controller (ground (arith, e)) in
      rw e (record {
        one_run = h.one_run;
        timer_alone = inr (idle, ground (arith, e));
        asked = h.asked;
        quiet = inl (ground (arith, e));
      })
]

cleared-alone :
    (urgent : Bool) (timer controller args : Option ℕ)
    → (timer ≡ none) ⊎ ((controller ≡ none) × (is_some args ≡ true))
    → (cleared urgent timer ≡ none) ⊎ (controller ≡ none)
cleared-alone true timer controller args h = inl refl
cleared-alone false timer controller args (inl e) = inl e
cleared-alone false timer controller args (inr p) = inr p.0

request-IsOrderly :
    (visible : Bool) (args : ℕ) (urgent : Bool) (q : Queue)
    → IsOrderly q
    → IsOrderly (request visible args urgent q)
unfolding request
request-IsOrderly visible args urgent q h =
    let Goal : Bool → Type 0 =
      λ b. IsOrderly (if b then declined q else schedule visible (noted args urgent q)) in
    elim (Bool-cases q.disposed) [
      | inl e ↦ subst Goal (sym e) (record {
        one_run = h.one_run;
        timer_alone = h.timer_alone;
        asked = h.asked;
        quiet = h.quiet;
      })
      | inr e ↦ subst Goal (sym e) (
          schedule-IsOrderly visible (noted args urgent q) (record {
            one_run = h.one_run;
            timer_alone = elim (cleared-alone urgent q.timer q.controller q.args h.timer_alone) [
              | inl c ↦ inl c
              | inr c ↦ inr (c, refl)
            ];
            asked = inr refl;
            quiet = inl e;
          }))
    ]

start_run-IsOrderly :
    (visible : Bool) (args : Option ℕ) (q : Queue)
    → q.args ≡ args
    → q.controller ≡ none
    → q.timer ≡ none
    → IsOrderly q
    → IsOrderly (start_run visible args q)
unfolding start_run
start_run-IsOrderly visible none q same idle due h = h
start_run-IsOrderly visible (some args) q same idle due h =
    elim (Bool-cases (q.disposed || (not visible && not q.urgent))) [
      | inl e ↦ rw e h
      | inr e ↦ rw e (record {
        one_run = (
          record { controller = q.controllers; args = args; waiters = q.waiters },
          ap (λ rs. record { controller = q.controllers; args = args; waiters = q.waiters } ∷ rs)
              (subst (λ c. OneRun c q.runs) idle h.one_run),
          refl,
        );
        timer_alone = inl due;
        asked = inl refl;
        quiet = inl (ground (arith, e));
      })
    ]

-- When the timer fires, nothing is in flight.
fire-IsOrderly :
    (visible : Bool) (q : Queue) → is_some q.timer ≡ true → IsOrderly q → IsOrderly (fire visible q)
unfolding fire flush
fire-IsOrderly visible q due h =
    let idle : q.controller ≡ none = elim h.timer_alone [
      | inl e ↦ absurd (true≢false (sym due ∙ ap is_some e))
      | inr p ↦ p.0
    ] in
    start_run-IsOrderly visible q.args (record q { timer = none }) refl idle refl
      (record {
        one_run = h.one_run;
        timer_alone = inl refl;
        asked = h.asked;
        quiet = elim h.quiet [ inl f ↦ inl f | inr p ↦ inr (p.0, p.1, refl) ];
      })

-- A list of one entry.
only_entry : (before after : List Run) (run r : Run) → before ++ run ∷ after ≡ r ∷ [] → run ≡ r
only_entry [] after run r h = cc
only_entry (b ∷ []) after run r h = absurd (cc h)
only_entry (b ∷ c ∷ bs) after run r h = absurd (cc h)

pub sole_run :
    (controller : Option ℕ) (runs before after : List Run) (run : Run)
    → OneRun controller runs
    → runs ≡ before ++ run ∷ after
    → runs ≡ run ∷ []
sole_run none runs [] after run h e = absurd (cc (h, e))
sole_run none runs (b ∷ bs) after run h e = absurd (cc (h, e))
sole_run (some c) runs before after run (r, one, number) e =
    one ∙ ap (λ x. x ∷ []) (sym (only_entry before after run r (sym e ∙ one)))

finish-IsOrderly :
    (visible : Bool) (value : Option ℕ) (run : Run) (before after : List Run) (q : Queue)
    → q.runs ≡ before ++ run ∷ after
    → IsOrderly q
    → IsOrderly (finish visible value run q)
unfolding finish
finish-IsOrderly visible value run before after q e h =
    let one = sole_run q.controller q.runs before after run h.one_run e in
    let left : filter (λ r. not (r.controller == run.controller)) q.runs ≡ [] =
      ap (filter (λ r. not (r.controller == run.controller))) one
      ∙ rw (==_refl run.controller) refl in
    schedule-IsOrderly visible
      (record q {
        settled = settle_all value run.waiters ++ q.settled;
        runs = filter (λ r. not (r.controller == run.controller)) q.runs;
        controller = none;
      })
      (record {
        one_run = left;
        timer_alone = elim h.timer_alone [ inl t ↦ inl t | inr p ↦ inr (refl, p.1) ];
        asked = h.asked;
        quiet = h.quiet;
      })

dispose-IsOrderly : (q : Queue) → IsOrderly q → IsOrderly (dispose q)
unfolding dispose abort
dispose-IsOrderly q h = record {
  one_run = h.one_run;
  timer_alone = inl refl;
  asked = inl refl;
  quiet = inr (refl, refl, refl);
}

abort-IsOrderly : (q : Queue) → IsOrderly q → IsOrderly (abort q)
unfolding abort
abort-IsOrderly q h = record {
  one_run = h.one_run;
  timer_alone = h.timer_alone;
  asked = h.asked;
  quiet = h.quiet;
}

activate-IsOrderly : (q : Queue) → IsOrderly q → IsOrderly (activate q)
unfolding activate
activate-IsOrderly q h = record {
  one_run = h.one_run;
  timer_alone = h.timer_alone;
  asked = h.asked;
  quiet = inl refl;
}

new_queue-IsOrderly : IsOrderly new_queue
new_queue-IsOrderly = record {
  one_run = refl;
  timer_alone = inl refl;
  asked = inl refl;
  quiet = inl refl;
}

Step-IsOrderly : (q r : Queue) → IsOrderly q → Step q r → IsOrderly r
unfolding resume
Step-IsOrderly q r h (requested visible args urgent) = request-IsOrderly visible args urgent q h
Step-IsOrderly q r h (resumed visible) = schedule-IsOrderly visible q h
Step-IsOrderly q r h activated = activate-IsOrderly q h
Step-IsOrderly q r h (fired visible due) = fire-IsOrderly visible q due h
Step-IsOrderly q r h (finished visible value run before after e) =
    finish-IsOrderly visible value run before after q e h
Step-IsOrderly q r h stopped = abort-IsOrderly q h
Step-IsOrderly q r h disposed_of = dispose-IsOrderly q h

-- Whatever calls, timers and ends of runs follow the making of a queue, at most one run is in
-- flight, and its controller is the one that is kept; a timer waits only for a request, and only
-- while nothing is in flight; and who waits has a request, unless the queue is disposed, when it
-- waits for nothing.
pub Reachable-IsOrderly : (q : Queue) → Reachable q → IsOrderly q
Reachable-IsOrderly q start = new_queue-IsOrderly
Reachable-IsOrderly q (next {q = p} reached step) =
    Step-IsOrderly p q (Reachable-IsOrderly p reached) step

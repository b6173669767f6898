-- ===== src/RefreshQueue/Promises.antt =====
-- The promises that a RefreshQueue (src/refresh-queue.ts) gives: none is lost, none settled twice.
use allocube.Prelude.{
  ℕ, ◌+◌, ◌≡◌, refl, sym, ap, subst, ◌∙◌, arith, Bool, not, ◌&&◌, ◌||◌, Option, none, some, List,
  [], ◌∷◌, ◌++◌, map, flat_map, filter, ◌==◌, ==_refl, ltb, if◌then◌else◌, Bool-cases, inl, inr,
  append-nil,
}
use allocube.RefreshQueue.{
  Queue, Run, Settled, request, resume, activate, schedule, noted, declined, start_run, flush, fire,
  finish, settle_all, abort, dispose,
}
use allocube.RefreshQueue.Steps.{
  Step, requested, resumed, activated, fired, finished, stopped, disposed_of, Reachable, start,
  next, IsOrderly, Reachable-IsOrderly, sole_run, held_back,
}

abbrev pub count : ℕ → List ℕ → ℕ
count p [] = 0
count p (x ∷ xs) = (if p == x then 1 else 0) + count p xs

-- How often a promise has settled, waits for a run to begin, and waits for a run to end.
abbrev pub settled_times : ℕ → Queue → ℕ
settled_times p q = count p (map (λ s. s.promise) q.settled)

abbrev pub waiting_times : ℕ → Queue → ℕ
waiting_times p q = count p q.waiters

abbrev pub running_times : ℕ → Queue → ℕ
running_times p q = count p (flat_map (λ r. r.waiters) q.runs)

abbrev pub given : ℕ → Queue → ℕ
given p q = if ltb p q.promises then 1 else 0

abbrev pub Accounted : ℕ → Queue → Type 0
Accounted p q = settled_times p q + waiting_times p q + running_times p q ≡ given p q

pub count-append : (p : ℕ) (xs ys : List ℕ) → count p (xs ++ ys) ≡ count p xs + count p ys
count-append p [] ys = omega arith
count-append p (x ∷ xs) ys = omega (arith, count-append p xs ys)

pub count-settle_all :
    (p : ℕ) (value : Option ℕ) (ws : List ℕ) (more : List Settled)
    → count p (map (λ s. s.promise) (settle_all value ws ++ more))
      ≡ count p ws + count p (map (λ s. s.promise) more)
count-settle_all p value [] more = omega arith
count-settle_all p value (w ∷ ws) more = omega (arith, count-settle_all p value ws more)

schedule-Accounted :
    (p : ℕ) (visible : Bool) (q : Queue) → Accounted p q → Accounted p (schedule visible q)
unfolding schedule
schedule-Accounted p visible q h = elim (Bool-cases (held_back visible q)) [
  | inl e ↦ rw e h
  | inr e ↦ rw e h
]

start_run-Accounted :
    (p : ℕ) (visible : Bool) (args : Option ℕ) (q : Queue)
    → Accounted p q
    → Accounted p (start_run visible args q)
unfolding start_run
start_run-Accounted p visible none q h = h
start_run-Accounted p visible (some args) q h =
    elim (Bool-cases (q.disposed || (not visible && not q.urgent))) [
      | inl e ↦ rw e h
      | inr e ↦ rw e (omega (arith, h, count-append p q.waiters (flat_map (λ r. r.waiters) q.runs)))
    ]

request-Accounted :
    (p : ℕ) (visible : Bool) (args : ℕ) (urgent : Bool) (q : Queue)
    → Accounted p q
    → Accounted p (request visible args urgent q)
unfolding request
request-Accounted p visible args urgent q h =
    let Goal : Bool → Type 0 =
      λ b. Accounted p (if b then declined q else schedule visible (noted args urgent q)) in
    elim (Bool-cases q.disposed) [
      | inl e ↦ subst Goal (sym e) (ground (arith, h))
      | inr e ↦ subst Goal (sym e) (
          schedule-Accounted p visible (noted args urgent q)
            (ground (arith, h, count-append p q.waiters (q.promises ∷ []))))
    ]

finish-Accounted :
    (p : ℕ) (visible : Bool) (value : Option ℕ) (run : Run) (before after : List Run) (q : Queue)
    → IsOrderly q
    → q.runs ≡ before ++ run ∷ after
    → Accounted p q
    → Accounted p (finish visible value run q)
unfolding finish
finish-Accounted p visible value run before after q o e h =
    let one = sole_run q.controller q.runs before after run o.one_run e in
    let left : filter (λ r. not (r.controller == run.controller)) q.runs ≡ [] =
      ap (filter (λ r. not (r.controller == run.controller))) one
      ∙ rw (==_refl run.controller) refl in
    let was : running_times p q ≡ count p run.waiters =
      ap (λ rs. count p (flat_map (λ r. r.waiters) rs)) one
      ∙ ap (count p) (append-nil run.waiters) in
    let is : count p
          (flat_map (λ r. r.waiters) (filter (λ r. not (r.controller == run.controller)) q.runs))
        ≡ 0 =
      ap (λ rs. count p (flat_map (λ r. r.waiters) rs)) left in
    schedule-Accounted p visible
      (record q {
        settled = settle_all value run.waiters ++ q.settled;
        runs = filter (λ r. not (r.controller == run.controller)) q.runs;
        controller = none;
      })
      (omega (arith, h, was, is, count-settle_all p value run.waiters q.settled))

Step-Accounted : (p : ℕ) (q r : Queue) → IsOrderly q → Accounted p q → Step q r → Accounted p r
unfolding resume fire flush activate abort dispose
Step-Accounted p q r o h (requested visible args urgent) =
    request-Accounted p visible args urgent q h
Step-Accounted p q r o h (resumed visible) = schedule-Accounted p visible q h
Step-Accounted p q r o h activated = h
Step-Accounted p q r o h (fired visible due) =
    start_run-Accounted p visible q.args (record q { timer = none }) h
Step-Accounted p q r o h (finished visible value run before after e) =
    finish-Accounted p visible value run before after q o e h
Step-Accounted p q r o h stopped = h
Step-Accounted p q r o h disposed_of = omega (arith, h, count-settle_all p none q.waiters q.settled)

-- Whatever calls, timers and ends of runs follow the making of a queue, each promise that it gave
-- has settled once, waits once for a run to begin, or waits once for a run to end, and only one of
-- these.
pub Reachable-Accounted :
    (q : Queue) (p : ℕ)
    → Reachable q
    → settled_times p q + waiting_times p q + running_times p q
      ≡ (if ltb p q.promises then 1 else 0)
Reachable-Accounted q p start = ground arith
Reachable-Accounted q p (next {q = r} reached step) =
    Step-Accounted p r q (Reachable-IsOrderly r reached) (Reachable-Accounted r p reached) step

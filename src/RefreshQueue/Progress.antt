-- ===== src/RefreshQueue/Progress.antt =====
-- Who waits on a RefreshQueue (src/refresh-queue.ts) is answered by the next run.
use mathlib.Core.Bool.{true≢false}
use allocube.Prelude.{
  ℕ, ◌+◌, ◌≡◌, ◌≢◌, refl, sym, ap, subst, ◌∙◌, arith, Bool, true, false, not, Option, none, some,
  List, [], ◌∷◌, ◌++◌, map, filter, ◌==◌, Bool-cases, Option-cases, inl, inr,
}
use allocube.RefreshQueue.{
  Queue, Run, resume, schedule, start_run, flush, fire, finish, settle_all, is_some,
}
use allocube.RefreshQueue.Steps.{Reachable, Reachable-IsOrderly, OneRun, held_back}
use allocube.RefreshQueue.Latest.{last_asked, last_asked-Latest}
use allocube.RefreshQueue.Promises.{
  count, count-settle_all, Reachable-Accounted, settled_times, waiting_times,
}

-- The run that begins for the waiters of a queue.
abbrev pub run_of : Queue → ℕ → Run
run_of q args = record { controller = q.controllers; args = args; waiters = q.waiters }

-- What the timer starts after `resume`, while the page is visible.
started :
    (q : Queue) (args : ℕ)
    → q.args ≡ some args
    → q.disposed ≡ false
    → q.runs ≡ []
    → (fire true (resume true q)).runs ≡ run_of q args ∷ []
unfolding fire flush resume schedule start_run
started q args asked awake idle = elim (Bool-cases (held_back true q)) [
  | inl e ↦ rw (e, asked, awake, idle) refl
  | inr e ↦ rw (e, asked, awake, idle) refl
]

kept_settled : (q : Queue) → (fire true (resume true q)).settled ≡ q.settled
unfolding fire flush resume schedule start_run
kept_settled q = elim (Option-cases q.args) [
  | inl e ↦ elim (Bool-cases (held_back true q)) [ inl h ↦ rw (h, e) refl | inr h ↦ rw (h, e) refl ]
  | inr (args, e) ↦ elim (Bool-cases q.disposed) [
    | inl d ↦ elim (Bool-cases (held_back true q)) [
      | inl h ↦ rw (h, e, d) refl
      | inr h ↦ rw (h, e, d) refl
    ]
    | inr d ↦ elim (Bool-cases (held_back true q)) [
      | inl h ↦ rw (h, e, d) refl
      | inr h ↦ rw (h, e, d) refl
    ]
  ]
]

schedule-settled : (visible : Bool) (q : Queue) → (schedule visible q).settled ≡ q.settled
unfolding schedule
schedule-settled visible q = elim (Bool-cases (held_back visible q)) [
  | inl h ↦ rw h refl
  | inr h ↦ rw h refl
]

finish-settled_times :
    (p : ℕ) (value : Option ℕ) (run : Run) (q : Queue)
    → settled_times p (finish true value run q) ≡ count p run.waiters + settled_times p q
unfolding finish
finish-settled_times p value run q =
    ap (λ s. count p (map (λ x. x.promise) s))
      (schedule-settled true (record q {
        settled = settle_all value run.waiters ++ q.settled;
        runs = filter (λ r. not (r.controller == run.controller)) q.runs;
        controller = none;
      }))
    ∙ count-settle_all p value run.waiters q.settled

-- What waits is there to be waited for.
waits : (p : ℕ) (ws : List ℕ) → count p ws ≡ 1 → ws ≢ []
waits p [] h e = absurd (omega (arith, h))
waits p (w ∷ ws) h e = absurd (cc e)

-- After `resume` a timer is set, as one was before, or as `schedule` sets it.
resume-timer :
    (q : Queue) (args : ℕ)
    → q.args ≡ some args
    → q.disposed ≡ false
    → q.controller ≡ none
    → is_some (resume true q).timer ≡ true
unfolding resume schedule
resume-timer q args asked awake idle = elim (Bool-cases (is_some q.timer)) [
  | inl e ↦ rw (asked, awake, idle, e) e
  | inr e ↦ rw (asked, awake, idle, e) refl
]

-- In every reachable queue without a run in flight, while the page is visible: for a promise that
-- waits, `resume` leaves a timer set; when the timer fires it starts one run, with the arguments
-- of the last request, and when that run ends, by a value or an error, the promise has settled,
-- once.
pub resume-answers :
    (q : Queue) (p : ℕ) (value : Option ℕ) (reached : Reachable q)
    → waiting_times p q ≡ 1
    → q.controller ≡ none
    → (args : ℕ) × (last_asked reached ≡ some args)
      × (is_some (resume true q).timer ≡ true)
      × ((fire true (resume true q)).runs ≡ run_of q args ∷ [])
      × (settled_times p (finish true value (run_of q args) (fire true (resume true q))) ≡ 1)
resume-answers q p value reached waiting idle =
    let orderly = Reachable-IsOrderly q reached in
    let (args, asked) : (a : ℕ) × (q.args ≡ some a) = elim orderly.asked [
      | inl e ↦ absurd (waits p q.waiters waiting e)
      | inr e ↦ elim (Option-cases q.args) [
        | inl n ↦ absurd (true≢false (sym e ∙ ap is_some n))
        | inr found ↦ found
      ]
    ] in
    let awake : q.disposed ≡ false = elim orderly.quiet [
      | inl e ↦ e
      | inr (n, e, t) ↦ absurd (waits p q.waiters waiting e)
    ] in
    let last : last_asked reached ≡ some args = elim (last_asked-Latest reached) [
      | inl gone ↦ absurd (cc (gone, asked))
      | inr same ↦ sym same ∙ asked
    ] in
    let none_running : q.runs ≡ [] = subst (λ c. OneRun c q.runs) idle orderly.one_run in
    let before : settled_times p q ≡ 0 = ground (arith, Reachable-Accounted q p reached, waiting) in
    (
      args,
      last,
      resume-timer q args asked awake idle,
      started q args asked awake none_running,
      finish-settled_times p value (run_of q args) (fire true (resume true q))
          ∙ omega
              (arith, waiting, before, ap (λ s. count p (map (λ x. x.promise) s)) (kept_settled q)),
    )

-- ===== src/RefreshQueue/Latest.antt =====
-- The arguments that a RefreshQueue (src/refresh-queue.ts) keeps are those asked for last.
use allocube.Prelude.{
  ℕ, ◌≡◌, ◌⊎◌, refl, sym, subst, Bool, false, not, ◌&&◌, ◌||◌, Option, none, some, ◌++◌, filter,
  ◌==◌, inl, inr, Bool-cases, Option-cases, if◌then◌else◌,
}
use allocube.RefreshQueue.{
  Queue, Run, request, resume, activate, schedule, noted, declined, start_run, flush, fire, finish,
  abort, dispose, settle_all,
}
use allocube.RefreshQueue.Steps.{
  requested, resumed, activated, fired, finished, stopped, disposed_of, Reachable, start, next,
  Reachable-IsOrderly, held_back,
}

-- The arguments of the last call of `request`, in a sequence of events.
abbrev pub last_asked : {q : Queue} → Reachable q → Option ℕ
last_asked start = none
last_asked (next reached (requested visible args urgent)) = some args
last_asked (next reached (resumed visible)) = last_asked reached
last_asked (next reached activated) = last_asked reached
last_asked (next reached (fired visible due)) = last_asked reached
last_asked (next reached (finished visible value run before after there)) = last_asked reached
last_asked (next reached stopped) = last_asked reached
last_asked (next reached disposed_of) = last_asked reached

abbrev Latest : Option ℕ → Option ℕ → Type 0
Latest last args = (args ≡ none) ⊎ (args ≡ last)

schedule-args : (visible : Bool) (q : Queue) → (schedule visible q).args ≡ q.args
unfolding schedule
schedule-args visible q = elim (Bool-cases (held_back visible q)) [
  | inl e ↦ rw e refl
  | inr e ↦ rw e refl
]

finish-args :
    (visible : Bool) (value : Option ℕ) (run : Run) (q : Queue)
    → (finish visible value run q).args ≡ q.args
unfolding finish
finish-args visible value run q = schedule-args visible (record q {
  settled = settle_all value run.waiters ++ q.settled;
  runs = filter (λ r. not (r.controller == run.controller)) q.runs;
  controller = none;
})

fire-args :
    (visible : Bool) (last : Option ℕ) (q : Queue)
    → Latest last q.args
    → Latest last (fire visible q).args
unfolding fire flush start_run
fire-args visible last q h = elim (Option-cases q.args) [
  | inl e ↦ rw e (inl refl)
  | inr (args, e) ↦ elim (Bool-cases (q.disposed || (not visible && not q.urgent))) [
    | inl d ↦ rw (e, d) (rw e at h)
    | inr d ↦ rw (e, d) (inl refl)
  ]
]

request-args :
    (visible : Bool) (args : ℕ) (urgent : Bool) (q : Queue)
    → (q.disposed ≡ false) ⊎ (q.args ≡ none)
    → Latest (some args) (request visible args urgent q).args
unfolding request
request-args visible args urgent q h =
    let Goal : Bool → Type 0 = λ b.
      Latest (some args) (if b then declined q else schedule visible (noted args urgent q)).args in
    elim (Bool-cases q.disposed) [
      | inl d ↦ subst Goal (sym d) (elim h [ inl awake ↦ absurd (cc (d, awake)) | inr e ↦ inl e ])
      | inr d ↦ subst Goal (sym d) (inr (schedule-args visible (noted args urgent q)))
    ]

pub last_asked-Latest : {q : Queue} (reached : Reachable q) → Latest (last_asked reached) q.args
unfolding resume activate abort dispose
last_asked-Latest start = inl refl
last_asked-Latest (next {q} reached (requested visible args urgent)) =
    request-args visible args urgent q
      (elim (Reachable-IsOrderly q reached).quiet [ inl e ↦ inl e | inr (n, w, t) ↦ inr n ])
last_asked-Latest (next {q} reached (resumed visible)) =
    subst (Latest (last_asked reached)) (sym (schedule-args visible q)) (last_asked-Latest reached)
last_asked-Latest (next reached activated) = last_asked-Latest reached
last_asked-Latest (next {q} reached (fired visible due)) =
    fire-args visible (last_asked reached) q (last_asked-Latest reached)
last_asked-Latest (next {q} reached (finished visible value run before after there)) =
    subst (Latest (last_asked reached)) (sym (finish-args visible value run q))
      (last_asked-Latest reached)
last_asked-Latest (next reached stopped) = last_asked-Latest reached
last_asked-Latest (next reached disposed_of) = inl refl

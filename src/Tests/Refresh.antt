-- ===== src/Tests/Refresh.antt =====
-- A queue with one run in flight and one request behind it, and edits of one path.
use allocube.Prelude.{
  ℕ, ◌≡◌, ◌⊎◌, ◌↔◌, ◌+◌, refl, true, false, none, some, [], ◌∷◌, ltb, if◌then◌else◌,
}
use allocube.RefreshQueue.{Queue, new_queue, request, resume, fire, finish, is_some}
use allocube.RefreshQueue.Steps.{
  Reachable, start, next, requested, fired, finished, IsOrderly, Reachable-IsOrderly,
}
use allocube.RefreshQueue.Promises.{
  settled_times, waiting_times, running_times, Reachable-Accounted,
}
use allocube.RefreshQueue.Latest.{last_asked}
use allocube.RefreshQueue.Progress.{run_of, resume-answers}
use allocube.EditConflict.{
  World, api_error, edit_conflict, threw, answered, proper, said, edit_outcome_unknown,
  other_failure, done, failed, confirmed_edit,
}
use allocube.EditConflict.Guarded.{MayOverwrite, Clear, confirmed_edit-MayOverwrite}

-- Promise 0 runs; promises 1 and 2 wait, the last with arguments 9.
abbrev busy : Queue
busy = request true 9 false (request true 8 false (fire true (request true 7 false new_queue)))

timer_set : is_some (request true 7 false new_queue).timer ≡ true
unfolding request
timer_set = refl

busy-Reachable : Reachable busy
busy-Reachable =
    next
      (next (next (next start (requested true 7 false)) (fired true timer_set))
        (requested true 8 false))
      (requested true 9 false)

Reachable-IsOrderly_example : IsOrderly busy
Reachable-IsOrderly_example = Reachable-IsOrderly busy busy-Reachable

Reachable-Accounted_example :
    settled_times 1 busy + waiting_times 1 busy + running_times 1 busy
    ≡ (if ltb 1 busy.promises then 1 else 0)
Reachable-Accounted_example = Reachable-Accounted busy 1 busy-Reachable

-- The first run ends.
abbrev ended : Queue
ended = finish true (some 70) (record { controller = 0; args = 7; waiters = 0 ∷ [] }) busy

ended-Reachable : Reachable ended
unfolding request fire
ended-Reachable =
    next busy-Reachable
      (finished true (some 70) (record { controller = 0; args = 7; waiters = 0 ∷ [] }) [] [] refl)

waits_one : waiting_times 1 ended ≡ 1
unfolding request fire finish
waits_one = refl

no_controller : ended.controller ≡ none
unfolding request fire finish
no_controller = refl

resume-answers_example :
    (args : ℕ) × (last_asked ended-Reachable ≡ some args)
    × (is_some (resume true ended).timer ≡ true)
    × ((fire true (resume true ended)).runs ≡ run_of ended args ∷ [])
    × (settled_times 1 (finish true (some 90) (run_of ended args) (fire true (resume true ended)))
        ≡ 1)
resume-answers_example = resume-answers ended 1 (some 90) ended-Reachable waits_one no_controller

-- The arguments that the queue keeps for that run.
asked_last : ended.args ≡ some 9
unfolding request fire finish
asked_last = refl

abbrev stale : World
stale = record {
  attempt = λ overwrite.
      if overwrite then answered (proper 4) else threw (api_error 409 (some edit_conflict));
  confirm = λ changed. said true;
  aborted_before = false;
  aborted_after = false;
}

confirmed_edit-MayOverwrite_example :
    (((confirmed_edit stale).attempts ≡ false ∷ [])
      ⊎ ((confirmed_edit stale).attempts ≡ true ∷ false ∷ []))
    × (((confirmed_edit stale).attempts ≡ true ∷ false ∷ []) ↔ MayOverwrite stale)
    × Clear (confirmed_edit stale).outcome
confirmed_edit-MayOverwrite_example = confirmed_edit-MayOverwrite stale

overwritten : (confirmed_edit stale).outcome ≡ done 4
unfolding confirmed_edit
overwritten = refl

-- A timeout is not tried again.
timed_out :
    confirmed_edit (record stale { attempt = λ overwrite. threw other_failure })
    ≡ record { attempts = false ∷ []; outcome = failed edit_outcome_unknown }
unfolding confirmed_edit
timed_out = refl

-- ===== src/RefreshQueue.antt =====
-- RefreshQueue (src/refresh-queue.ts): the fields of the object, the runs that it has started, and
-- what became of the promises it gave. A run, an argument list and a promise are numbers; whether
-- the page is visible is an argument of each step that asks.
pub mod Steps
pub mod Promises
pub mod Latest
pub mod Progress
use allocube.Prelude.{
  ℕ, suc, ◌≡◌, Bool, true, false, not, ◌&&◌, ◌||◌, Option, none, some, List, [], ◌∷◌, ◌++◌, map,
  filter, flat_map, ◌==◌, if◌then◌else◌,
}

-- A call of `run` that has not settled, with the waiters that `flush` took for it.
pub record Run : Type 0 where
  pub controller : ℕ
  pub args : ℕ
  pub waiters : List ℕ

-- A promise, with its value; none for undefined.
pub record Settled : Type 0 where
  pub promise : ℕ
  pub value : Option ℕ

pub record Queue : Type 0 where
  pub timer : Option ℕ
  pub controller : Option ℕ
  pub args : Option ℕ
  pub waiters : List ℕ
  pub disposed : Bool
  pub urgent : Bool
  -- outside the object: the runs in flight, the promises given and settled, the controllers made
  pub runs : List Run
  pub settled : List Settled
  pub promises : ℕ
  pub controllers : ℕ
  pub aborted : List ℕ

abbrev pub is_some {ℓ} : {A : Type ℓ} → Option A → Bool
is_some none = false
is_some (some a) = true

unfoldable pub schedule : Bool → Queue → Queue
schedule visible q =
    if q.disposed
      || not (is_some q.args)
      || is_some q.controller
      || is_some q.timer
      || (not visible && not q.urgent)
    then q
    else record q { timer = some (if q.urgent then 0 else 200) }

abbrev pub settle_all : Option ℕ → List ℕ → List Settled
settle_all value = map (λ p. record { promise = p; value = value })

-- `if (urgent && this.timer !== null) { clearTimeout(this.timer); this.timer = null; }`
abbrev pub cleared : Bool → Option ℕ → Option ℕ
cleared true timer = none
cleared false timer = timer

-- What `request` keeps of its arguments and of the promise that it makes.
abbrev pub noted : ℕ → Bool → Queue → Queue
noted args urgent q = record q {
  args = some args;
  urgent = q.urgent || urgent;
  timer = cleared urgent q.timer;
  waiters = q.waiters ++ q.promises ∷ [];
  promises = suc q.promises;
}

-- A disposed queue answers at once with undefined.
abbrev pub declined : Queue → Queue
declined q = record q {
  settled = record { promise = q.promises; value = none } ∷ q.settled;
  promises = suc q.promises;
}

unfoldable pub request : Bool → ℕ → Bool → Queue → Queue
unfolding schedule
request visible args urgent q =
    if q.disposed then declined q else schedule visible (noted args urgent q)

unfoldable pub resume : Bool → Queue → Queue
unfolding schedule
resume visible q = schedule visible q

unfoldable pub activate : Queue → Queue
activate q = record q { disposed = false }

-- A run of the arguments that were asked for, where there are any.
unfoldable pub start_run : Bool → Option ℕ → Queue → Queue
start_run visible none q = q
start_run visible (some args) q =
    if q.disposed || (not visible && not q.urgent) then q else record q {
      args = none;
      waiters = [];
      urgent = false;
      controller = some q.controllers;
      controllers = suc q.controllers;
      runs = record { controller = q.controllers; args = args; waiters = q.waiters } ∷ q.runs;
    }

-- What `flush` does before it awaits the run.
unfoldable pub flush : Bool → Queue → Queue
unfolding start_run
flush visible q = start_run visible q.args q

-- The callback of the timer.
unfoldable pub fire : Bool → Queue → Queue
unfolding flush
fire visible q = flush visible (record q { timer = none })

-- What `flush` does when its run has settled, by a value or by an error.
unfoldable pub finish : Bool → Option ℕ → Run → Queue → Queue
unfolding schedule
finish visible value run q = schedule visible (record q {
  settled = settle_all value run.waiters ++ q.settled;
  runs = filter (λ r. not (r.controller == run.controller)) q.runs;
  controller = none;
})

abbrev pub aborted_with : Option ℕ → List ℕ → List ℕ
aborted_with none aborted = aborted
aborted_with (some controller) aborted = controller ∷ aborted

unfoldable pub abort : Queue → Queue
abort q = record q { aborted = aborted_with q.controller q.aborted }

unfoldable pub dispose : Queue → Queue
unfolding abort
dispose q =
    let stopped = abort (record q { disposed = true }) in
    record stopped {
      timer = none;
      args = none;
      settled = settle_all none q.waiters ++ q.settled;
      waiters = [];
    }

abbrev pub new_queue : Queue
new_queue = record {
  timer = none;
  controller = none;
  args = none;
  waiters = [];
  disposed = false;
  urgent = false;
  runs = [];
  settled = [];
  promises = 0;
  controllers = 0;
  aborted = [];
}

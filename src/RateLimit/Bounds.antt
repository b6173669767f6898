-- ===== src/RateLimit/Bounds.antt =====
-- How many keys the limiter keeps, and how many requests a window counts.
use allocube.Prelude.{
  ℕ, suc, max, ◌≤◌, ◌≡◌, inl, inr, refl, sym, subst, Bool, some, List, [], ◌∷◌, arith, ltb, leb,
  ◌==◌, ◌%◌, filter, length, length-append, All, All-filter, All-append, Bool-cases, Option-cases,
  leb→lt, if◌then◌else◌,
}
use allocube.Store.Rows.{find, update_first}
use allocube.Schedule.Update.{All-update_first}
use allocube.RateLimit.{
  Policy, WindowState, Limiter, keyed, remove_expired, check_running, counted, fresh_window,
  restart, add_key, check_new, count_operation, check,
}

-- A window has counted at least one request, and at most as many as the policy allows.
abbrev pub Counts : Policy → WindowState → Type 0
Counts policy w = (1 ≤ w.count) × (w.count ≤ max 1 policy.max_requests)

pub record IsBounded (policy : Policy) (l : Limiter) : Type 0 where
  pub size : length l.windows ≤ l.max_keys
  pub counts : All (Counts policy) l.windows

length-filter : (p : WindowState → Bool) (xs : List WindowState) → length (filter p xs) ≤ length xs
length-filter p [] = omega arith
length-filter p (x ∷ xs) =
    let ih = length-filter p xs in
    elim (Bool-cases (p x)) [ inl e ↦ rw e (omega (arith, ih)) | inr e ↦ rw e (omega (arith, ih)) ]

length-update_first :
    (p : WindowState → Bool) (f : WindowState → WindowState) (xs : List WindowState)
    → length (update_first p f xs) ≡ length xs
unfolding update_first
length-update_first p f [] = refl
length-update_first p f (x ∷ xs) = elim (Bool-cases (p x)) [
  | inl e ↦ rw e refl
  | inr e ↦ rw e (omega (arith, length-update_first p f xs))
]

remove_expired-IsBounded :
    (policy : Policy) (now : ℕ) (l : Limiter)
    → IsBounded policy l
    → IsBounded policy (remove_expired now l)
unfolding remove_expired
remove_expired-IsBounded policy now l v = record {
  size = omega (arith, v.size, length-filter (λ w. ltb now w.reset_at) l.windows);
  counts = All-filter (Counts policy) (λ w. ltb now w.reset_at) l.windows v.counts;
}

check_running-IsBounded :
    (key : ℕ) (policy : Policy) (now : ℕ) (w : WindowState) (l : Limiter)
    → find (keyed key) l.windows ≡ some w
    → IsBounded policy l
    → IsBounded policy (check_running key policy now w l).1
unfolding check_running
check_running-IsBounded key policy now w l found v =
    elim (Bool-cases (leb policy.max_requests w.count)) [
      | inl full ↦ rw full v
      | inr room ↦ rw room (record {
        size = omega (arith, v.size, length-update_first (keyed key) counted l.windows);
        counts =
            All-update_first (Counts policy) (keyed key) counted l.windows w found
              (λ c. (omega (arith, c), omega (arith, leb→lt _ _ room))) v.counts;
      })
    ]

restart-IsBounded :
    (key : ℕ) (policy : Policy) (now : ℕ) (w : WindowState) (l : Limiter)
    → find (keyed key) l.windows ≡ some w
    → IsBounded policy l
    → IsBounded policy (restart key policy now l).1
unfolding restart
restart-IsBounded key policy now w l found v = record {
  size =
      omega (
        arith,
        v.size,
        length-update_first (keyed key) (λ _. fresh_window key policy now) l.windows,
      );
  counts =
      All-update_first (Counts policy) (keyed key) (λ _. fresh_window key policy now) l.windows w
        found (λ _. (omega arith, omega arith)) v.counts;
}

add_key-IsBounded :
    (key : ℕ) (policy : Policy) (now : ℕ) (l : Limiter)
    → IsBounded policy l
    → IsBounded policy (add_key key policy now l).1
unfolding add_key
add_key-IsBounded key policy now l v = elim (Bool-cases (leb l.max_keys (length l.windows))) [
  | inl full ↦ rw full v
  | inr room ↦ rw room (record {
    size =
        omega (arith, leb→lt _ _ room, length-append l.windows (fresh_window key policy now ∷ []));
    counts = All-append (Counts policy) l.windows _ v.counts ((omega arith, omega arith), tt);
  })
]

check_new-IsBounded :
    (key : ℕ) (policy : Policy) (now : ℕ) (l : Limiter)
    → IsBounded policy l
    → IsBounded policy (check_new key policy now l).1
unfolding check_new
check_new-IsBounded key policy now l v = elim (Bool-cases (leb l.max_keys (length l.windows))) [
  | inl full ↦ rw full (
      add_key-IsBounded key policy now (remove_expired now l)
        (remove_expired-IsBounded policy now l v))
  | inr room ↦
      subst
        (λ b.
          IsBounded policy
            (if b
              then add_key key policy now (remove_expired now l)
              else add_key key policy now l).1)
        (sym room) (add_key-IsBounded key policy now l v)
]

count_operation-IsBounded :
    (policy : Policy) (now : ℕ) (l : Limiter)
    → IsBounded policy l
    → IsBounded policy (count_operation now l)
unfolding count_operation
count_operation-IsBounded policy now l v =
    let v1 : IsBounded policy (record l { operations = suc l.operations }) = record {
      size = v.size;
      counts = v.counts;
    } in
    elim (Bool-cases ((suc l.operations % 1000) == 0)) [
      | inl e ↦ rw e (remove_expired-IsBounded policy now _ v1)
      | inr e ↦ rw e v1
    ]

-- A check keeps the limiter within its bounds: at most as many keys as it has room for, and in
-- every window between one request and as many as the policy allows, or one if it allows none.
pub check-IsBounded :
    (key : ℕ) (policy : Policy) (now : ℕ) (l : Limiter)
    → IsBounded policy l
    → IsBounded policy (check key policy now l).1
unfolding check
check-IsBounded key policy now l v =
    let l1 = count_operation now l in
    let v1 : IsBounded policy l1 = count_operation-IsBounded policy now l v in
    elim (Option-cases (find (keyed key) l1.windows)) [
      | inl absent ↦ rw absent (check_new-IsBounded key policy now l1 v1)
      | inr (w, found) ↦ elim (Bool-cases (ltb now w.reset_at)) [
        | inl running ↦ rw (found, running) (check_running-IsBounded key policy now w l1 found v1)
        | inr expired ↦ rw (found, expired) (restart-IsBounded key policy now w l1 found v1)
      ]
    ]

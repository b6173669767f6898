-- ===== src/RateLimit.antt =====
-- The limiter of requests per source: SourceRateLimiter of server/source-rate-limit.ts. Its Map is
-- a list of entries in the order of insertion.
pub mod Bounds
use allocube.Prelude.{
  ℕ, suc, max, ◌+◌, ◌-◌, ◌/◌, ◌%◌, Bool, true, false, not, Option, none, some, List, [], ◌∷◌, ◌++◌,
  ltb, leb, ◌==◌, filter, length, if◌then◌else◌,
}
use allocube.Store.Rows.{find, update_first}

pub record Policy : Type 0 where
  pub max_requests : ℕ
  pub window_ms : ℕ

pub record WindowState : Type 0 where
  pub key : ℕ
  pub count : ℕ
  pub reset_at : ℕ

pub record Limiter : Type 0 where
  pub windows : List WindowState
  pub operations : ℕ
  pub max_keys : ℕ

pub data Decision : Type 0 where
  allowed : Decision
  retry_after : ℕ → Decision

abbrev pub keyed : ℕ → WindowState → Bool
keyed key w = w.key == key

-- removeExpired
unfoldable pub remove_expired : ℕ → Limiter → Limiter
remove_expired now l = record l { windows = filter (λ w. ltb now w.reset_at) l.windows }

abbrev pub counted : WindowState → WindowState
counted w = record w { count = suc w.count }

-- A key that is there with a window that still runs.
unfoldable pub check_running : ℕ → Policy → ℕ → WindowState → Limiter → Decision × Limiter
unfolding update_first
check_running key policy now w l =
    if leb policy.max_requests w.count
    then (retry_after (max 1 ((w.reset_at - now + 999) / 1000)), l)
    else (allowed, record l { windows = update_first (keyed key) counted l.windows })

abbrev pub fresh_window : ℕ → Policy → ℕ → WindowState
fresh_window key policy now = record { key = key; count = 1; reset_at = now + policy.window_ms }

-- Map.set of a key that is there, and of a new one.
unfoldable pub restart : ℕ → Policy → ℕ → Limiter → Decision × Limiter
unfolding update_first
restart key policy now l = (
  allowed,
  record l { windows = update_first (keyed key) (λ _. fresh_window key policy now) l.windows },
)

unfoldable pub add_key : ℕ → Policy → ℕ → Limiter → Decision × Limiter
add_key key policy now l =
    if leb l.max_keys (length l.windows)
    then (retry_after 60, l)
    else (allowed, record l { windows = l.windows ++ fresh_window key policy now ∷ [] })

-- A new key, with expired keys removed first if there is no room.
unfoldable pub check_new : ℕ → Policy → ℕ → Limiter → Decision × Limiter
unfolding remove_expired add_key
check_new key policy now l =
    if leb l.max_keys (length l.windows)
    then add_key key policy now (remove_expired now l)
    else add_key key policy now l

abbrev pub check_found : ℕ → Policy → ℕ → Limiter → Option WindowState → Decision × Limiter
check_found key policy now l none = check_new key policy now l
check_found key policy now l (some w) =
    if ltb now w.reset_at then check_running key policy now w l else restart key policy now l

-- Every thousandth operation removes what has expired.
unfoldable pub count_operation : ℕ → Limiter → Limiter
unfolding remove_expired
count_operation now l =
    let counted_one : Limiter = record l { operations = suc l.operations } in
    if (suc l.operations % 1000) == 0 then remove_expired now counted_one else counted_one

-- check
unfoldable pub check : ℕ → Policy → ℕ → Limiter → Decision × Limiter
unfolding count_operation find check_running restart check_new
check key policy now l =
    let l1 = count_operation now l in check_found key policy now l1 (find (keyed key) l1.windows)

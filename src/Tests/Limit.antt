-- ===== src/Tests/Limit.antt =====
-- The limiter on three requests of one source.
use allocube.Prelude.{◌≡◌, refl, arith, [], ◌∷◌}
use allocube.RateLimit.{Policy, Limiter, allowed, retry_after, check}
use allocube.RateLimit.Bounds.{IsBounded, check-IsBounded}

abbrev two_a_minute : Policy
two_a_minute = record { max_requests = 2; window_ms = 60000 }

abbrev counting : Limiter
counting = record {
  windows = record { key = 5; count = 1; reset_at = 61000 } ∷ [];
  operations = 1;
  max_keys = 2;
}

counting-IsBounded : IsBounded two_a_minute counting
counting-IsBounded = record { size = omega arith; counts = ((omega arith, omega arith), tt) }

check-IsBounded_example : IsBounded two_a_minute (check 5 two_a_minute 2000 counting).1
check-IsBounded_example = check-IsBounded 5 two_a_minute 2000 counting counting-IsBounded

second_allowed : (check 5 two_a_minute 2000 counting).0 ≡ allowed
unfolding check
second_allowed = refl

third_refused :
    (check 5 two_a_minute 3500 (check 5 two_a_minute 2000 counting).1).0 ≡ retry_after 58
unfolding check
third_refused = refl

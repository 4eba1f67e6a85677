-- ===== src/RateLimit/Window.antt =====
-- The window of a request and the wait that a refusal names.
use ai_auto_test_platform.Prelude.{ℕ, ◌+◌, ◌*◌, ◌≤◌, ◌<◌, arith}
use ai_auto_test_platform.RateLimit.{second, window_of, window_end, retry_after}

-- A window around `now`, and a wait that ends after it.
pub record Waits (now : ℕ) : Type 0 where
  pub started : window_of now ≤ now
  pub ends : now < window_end now
  pub at_least : 1 ≤ retry_after now
  pub at_most : retry_after now ≤ 300
  pub enough : window_of now < window_of (now + retry_after now * second)

-- A request lies in its window, and the wait that a refusal names is between 1 and 300 seconds and
-- ends in a later window, so that a request after it is counted anew.
pub retry_after-Waits : (now : ℕ) → Waits now
unfolding window_of window_end retry_after
retry_after-Waits now = record {
  started = ground arith;
  ends = ground arith;
  at_least = ground arith;
  at_most = ground arith;
  enough = ground arith;
}

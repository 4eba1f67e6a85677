-- ===== src/Runtime.antt =====
-- What the control plane takes from the process and from libraries: the n-th value that a random or
-- clock source returns, and digests and texts as plain functions.
use ai_auto_test_platform.Prelude.{ℕ, String}

pub record Runtime : Type 0 where
  -- security.py `new_ulid`, `new_refresh_token` and `utc_now`, in microseconds
  pub ulid : ℕ → String
  pub refresh_token : ℕ → String
  pub clock : ℕ → ℕ
  -- `hashlib.sha256` and `datetime.isoformat`
  pub sha256 : String → String
  pub isoformat : ℕ → String

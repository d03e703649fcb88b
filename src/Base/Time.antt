-- ===== src/Base/Time.antt =====
-- Python's `datetime`, as far as the code looks at it.
use Prim.Native.Nat.{ℕ}

-- Without or with a time zone; the second by its instant in UTC, in microseconds.
pub data Datetime : Type 0 where
  naive : ℕ → Datetime
  aware : ℕ → Datetime

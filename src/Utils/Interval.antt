-- ===== src/Utils/Interval.antt =====
-- internal/utils/functions.go. A duration is a number of nanoseconds; `time.ParseDuration` is an argument.
use spyre_health_checker.Base.{ℤ, Text}
use spyre_health_checker.Types.{Outcome, ok, err}

-- The error of `ParseInterval` quotes the text that is not a duration.
pub data IntervalError : Type 0 where
  invalid_duration_format : Text → IntervalError

-- `ParseInterval`
unfoldable pub parse_interval : (Text → Outcome Text ℤ) → Text → Outcome IntervalError ℤ
parse_interval parse_duration interval = elim (parse_duration interval) [
  | err e ↦ err (invalid_duration_format interval)
  | ok d ↦ ok d
]

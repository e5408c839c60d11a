-- ===== src/Time.antt =====
-- std::time: instants and durations, in nanoseconds. An instant is counted from the earliest one
-- that the platform's SystemTime represents, 2 ^ 63 seconds before the Unix epoch, so that
-- the code's arithmetic before the epoch has its own results here.
use ayane.Base.{ℕ, ◌+◌, ◌-◌, ◌*◌, ◌/◌, Option, none, some, ltb, leb, if◌then◌else◌}

abbrev pub SystemTime : Type 0
SystemTime = ℕ

abbrev pub Duration : Type 0
Duration = ℕ

abbrev pub nanos_per_sec : ℕ
nanos_per_sec = 1_000_000_000

abbrev pub unix_epoch : SystemTime
unix_epoch = 9_223_372_036_854_775_808 * nanos_per_sec

-- The first instant past the representable ones.
abbrev pub end_of_time : SystemTime
end_of_time = 18_446_744_073_709_551_616 * nanos_per_sec

abbrev pub from_secs : ℕ → Duration
from_secs n = n * nanos_per_sec

abbrev pub as_secs : Duration → ℕ
as_secs d = d / nanos_per_sec

abbrev pub checked_add : SystemTime → Duration → Option SystemTime
checked_add t d = if ltb (t + d) end_of_time then some (t + d) else none

abbrev pub checked_sub : SystemTime → Duration → Option SystemTime
checked_sub t d = if leb d t then some (t - d) else none

-- `t.duration_since(u)`, `none` where it is an error
abbrev pub duration_since : SystemTime → SystemTime → Option Duration
duration_since t u = if leb u t then some (t - u) else none

-- ===== src/Base/Time.antt =====
-- Instants and durations, in nanoseconds. An instant is counted from Go's zero time, which is 0.
use Prim.Native.Nat.{ℕ, ◌-◌, ◌*◌, ◌^◌, min}
use mathlib.Core.Bool.{Bool}
use open_research_agent.Base.Tests.{◌==◌}

abbrev pub Instant : Type 0
Instant = ℕ

abbrev pub zero_time : Instant
zero_time = 0

abbrev pub is_zero : Instant → Bool
is_zero t = t == 0

abbrev pub second : ℕ
second = 1_000_000_000

abbrev pub minute : ℕ
minute = 60 * second

-- `time.Since(t)` at `now`: Go's difference of instants saturates at the longest duration. Where
-- `now` is before `t` it is 0 here and negative there, which no test against a bound tells apart.
abbrev pub since : Instant → Instant → ℕ
since now t = min (now - t) (2 ^ 63 - 1)

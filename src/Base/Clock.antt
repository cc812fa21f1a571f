-- ===== src/Base/Clock.antt =====
-- What the source uses of Go's package time. A time is its number of nanoseconds since the zero
-- `time.Time` (the first of January of the year 1), so that `IsZero` is a test for 0.
use Prim.Native.Nat.{ℕ, ◌*◌, ◌/◌}
use mathlib.Core.Path.{◌≡◌}
use mathlib.Core.Bool.{Bool}
use native.Mathlib.Omega.{arith}
use distributed_real_time_ev.Base.Tests.{eqb, if◌then◌else◌}
use distributed_real_time_ev.Base.Int.{ℤ, pos, negsuc, pos_part, ◌-ℤ◌, ◌+ℤ◌, ltb_ℤ, int64}

abbrev pub Time : Type 0
Time = ℕ

abbrev pub is_zero : Time → Bool
is_zero t = eqb t 0

-- t.Sub(u): a difference that a Duration cannot hold is cut off at the nearest Duration.
unfoldable pub time_sub : Time → Time → ℤ
time_sub t u =
    let d = pos t -ℤ pos u in
    if ltb_ℤ (pos 9223372036854775807) d
    then pos 9223372036854775807
    else if ltb_ℤ d (negsuc 9223372036854775807)
    then negsuc 9223372036854775807
    else d

-- t.UnixMilli(): whole milliseconds since the first of January 1970.
unfoldable pub unix_milli : Time → ℤ
unix_milli t = pos (t / 1000000) -ℤ pos 62135596800000

-- t.UnixNano(), in 64 bits.
unfoldable pub unix_nano : Time → ℤ
unix_nano t = int64 (pos t -ℤ pos 62135596800000000000)

-- time.UnixMilli(ms), for the times from the year 1 on.
unfoldable pub from_unix_milli : ℤ → Time
from_unix_milli ms = pos_part (ms +ℤ pos 62135596800000) * 1000000

-- Going through milliseconds drops what is below one.
pub from_unix_milli-unix_milli : (t : Time) → from_unix_milli (unix_milli t) ≡ t / 1000000 * 1000000
unfolding unix_milli from_unix_milli ◌-ℤ◌ ◌+ℤ◌
from_unix_milli-unix_milli t = ground arith

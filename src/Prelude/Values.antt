-- ===== src/Prelude/Values.antt =====
-- The values that records of the backend hold.
use Prim.Native.Nat.{ℕ, ◌*◌}
use mathlib.Core.List.{List}

-- A UUID, known only by equality.
abbrev pub Uuid : Type 0
Uuid = ℕ

-- A timezone-aware datetime: microseconds since the epoch.
abbrev pub Datetime : Type 0
Datetime = ℕ

-- A string: its code points.
abbrev pub Text : Type 0
Text = List ℕ

-- `timedelta(seconds=n)`
abbrev pub timedelta_seconds : ℕ → ℕ
timedelta_seconds n = n * 1_000_000

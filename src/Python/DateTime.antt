-- ===== src/Python/DateTime.antt =====
-- `datetime` objects of the standard library, as microseconds since the epoch. A naive one has no
-- time zone; every aware one of this program is in UTC.
use async_pulse.Prelude.{ℕ, ◌*◌, Bool, ltb}

pub data DateTime : Type 0 where
  naive aware : ℕ → DateTime

-- The wall-clock reading, whatever the zone says.
abbrev pub micros : DateTime → ℕ
micros (naive t) = t
micros (aware t) = t

-- `d.replace(tzinfo=UTC) if d.tzinfo is None else d`
abbrev pub as_utc : DateTime → DateTime
as_utc (naive t) = aware t
as_utc (aware t) = aware t

-- `a > b` of two aware datetimes.
abbrev pub later : DateTime → DateTime → Bool
later a b = ltb (micros b) (micros a)

abbrev pub second : ℕ
second = 1_000_000

abbrev pub minutes : ℕ → ℕ
minutes n = n * 60 * second

abbrev pub days : ℕ → ℕ
days n = n * 86_400 * second

-- ===== src/Domain/Places.antt =====
-- internal/pkg/models/user.go (Location) and the plain values that all models share.
-- A float64 is its IEEE bit pattern: it is stored and passed on here; arithmetic on it is a
-- parameter where the program computes. A time.Time is a number of ticks, zero for the zero time;
-- a uuid.UUID is its 128-bit value, zero for `uuid.Nil`; an int is its 64-bit pattern.
use nebengjek.Prelude.{ℕ}

abbrev pub Float64 : Type 0
Float64 = ℕ

abbrev pub Time : Type 0
Time = ℕ

abbrev pub Uuid : Type 0
Uuid = ℕ

abbrev pub Int64 : Type 0
Int64 = ℕ

pub record Location : Type 0 where
  pub latitude : Float64
  pub longitude : Float64
  pub timestamp : Time

-- `models.Location{}`
abbrev pub zero_location : Location
zero_location = record { latitude = 0; longitude = 0; timestamp = 0 }

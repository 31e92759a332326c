-- ===== src/Domain/Floats.antt =====
-- The float64 arithmetic that the program uses, as a parameter: IEEE 754 and Go's `math`.
use nebengjek.Prelude.{Str, Bool}
use nebengjek.Domain.Places.{Float64, Int64}

pub record FloatOps : Type 0 where
  -- `a < b`, false if either is NaN
  pub lt : Float64 → Float64 → Bool
  -- `a <= b`, false if either is NaN
  pub le : Float64 → Float64 → Bool
  pub add : Float64 → Float64 → Float64
  pub sub : Float64 → Float64 → Float64
  pub mul : Float64 → Float64 → Float64
  pub div : Float64 → Float64 → Float64
  pub sin : Float64 → Float64
  pub cos : Float64 → Float64
  pub sqrt : Float64 → Float64
  pub atan2 : Float64 → Float64 → Float64
  pub round : Float64 → Float64
  -- `float64(n)`, and `int(x)`
  pub of_int : Int64 → Float64
  pub to_int : Float64 → Int64
  -- `%.2f`
  pub format_two : Float64 → Str

-- The bit patterns of the constants.
abbrev pub zero_f : Float64
zero_f = 0

abbrev pub one_f : Float64
one_f = 0x3ff0000000000000

abbrev pub two_f : Float64
two_f = 0x4000000000000000

abbrev pub hundred_f : Float64
hundred_f = 0x4059000000000000

abbrev pub thousand_f : Float64
thousand_f = 0x408f400000000000

abbrev pub half_turn_f : Float64
half_turn_f = 0x4066800000000000

abbrev pub pi_f : Float64
pi_f = 0x400921fb54442d18

abbrev pub earth_radius_f : Float64
earth_radius_f = 0x40b8e30000000000

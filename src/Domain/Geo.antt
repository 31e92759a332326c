-- ===== src/Domain/Geo.antt =====
-- internal/utils/geohash.go: the Haversine distance, over the given float arithmetic.
use nebengjek.Domain.Places.{Float64}
use nebengjek.Domain.Floats.{FloatOps, one_f, two_f, half_turn_f, pi_f, earth_radius_f}

pub record GeoPoint : Type 0 where
  pub latitude : Float64
  pub longitude : Float64

module _ (ops : FloatOps) where
  open ops use {add, sub, mul, div, sin, cos, sqrt, atan2}

  -- `x * math.Pi / 180.0`
  abbrev pub radians : Float64 → Float64
  radians x = div (mul x pi_f) half_turn_f

  haversine : Float64 → Float64 → Float64 → Float64 → Float64
  haversine lat1 lat2 d_lat d_lon =
      add (mul (sin (div d_lat two_f)) (sin (div d_lat two_f)))
        (mul (mul (mul (cos lat1) (cos lat2)) (sin (div d_lon two_f))) (sin (div d_lon two_f)))

  central_angle : Float64 → Float64
  central_angle a = mul two_f (atan2 (sqrt a) (sqrt (sub one_f a)))

  unfoldable pub calculate_distance : GeoPoint → GeoPoint → Float64
  unfolding haversine central_angle
  calculate_distance p q =
      let lat1 = radians p.latitude in
      let lon1 = radians p.longitude in
      let lat2 = radians q.latitude in
      let lon2 = radians q.longitude in
      mul earth_radius_f (central_angle (haversine lat1 lat2 (sub lat2 lat1) (sub lon2 lon1)))

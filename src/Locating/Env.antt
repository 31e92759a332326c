-- ===== src/Locating/Env.antt =====
-- What the location service calls outside its own code: the Redis commands of
-- internal/pkg/database/redis.go, the clock, and the event of LocationGW.
use nebengjek.Prelude.{Str, List, Bool, Option}
use nebengjek.Exec.{Result, Ok, Exec, call}
use nebengjek.Domain.Places.{Float64, Int64, Time}
use nebengjek.Domain.Floats.{FloatOps}
use nebengjek.Domain.Rides.{LocationAggregate}

-- The three fields of a stored location, `lat`, `lng` and `ts`, as they are sent. A float64 that
-- is sent as such is formatted by the client.
pub record Fields : Type 0 where
  pub lat : Str
  pub lng : Str
  pub ts : Str

-- One answer of GEORADIUS with its coordinates and its distance.
pub record GeoLocation : Type 0 where
  pub name : Str
  pub longitude : Float64
  pub latitude : Float64
  pub dist : Float64

pub data Call : Type 0 where
  now : Call
  geo_add : Str → Float64 → Float64 → Str → Call
  expire : Str → Int64 → Call
  set_add : Str → Str → Call
  hash_set : Str → Fields → Call
  sorted_remove : Str → Str → Call
  set_remove : Str → Str → Call
  redis_delete : Str → Call
  geo_radius : Str → Float64 → Float64 → Float64 → Call
  set_is_member : Str → Str → Call
  -- `HMGET key lat lng ts`, where a field that is missing is given as the empty string
  hash_get : Str → Call
  hash_get_all : Str → Call
  publish_location_aggregate : LocationAggregate → Call

abbrev pub History : Type 0
History = List Call

-- The replies, and what the code uses of `strconv` and `time`.
pub record Env : Type 0 where
  pub clock : History → Time
  pub reply : Call → History → Ok
  pub geo_reply : Call → History → Result (List GeoLocation)
  pub member_reply : Call → History → Result Bool
  pub fields_reply : Call → History → Result (List Str)
  pub map_reply : Call → History → Result (List (Str × Str))
  -- `FormatFloat(x, 'f', -1, 64)`, `ParseFloat(s, 64)`, `FormatInt(n, 10)`, `ParseInt(s, 10, 64)`
  pub format_float : Float64 → Str
  pub parse_float : Str → Result Float64
  pub format_int : Int64 → Str
  pub parse_int : Str → Result Int64
  -- what the last two return next to the error, if that is dropped
  pub float_value : Str → Float64
  pub int_value : Str → Int64
  -- how the Redis client writes a float64
  pub client_float : Float64 → Str
  -- `t.Unix()` and `time.Unix(n, 0)`
  pub unix : Time → Int64
  pub of_unix : Int64 → Time
  pub floats : FloatOps
  -- `config.Location.AvailabilityTTLMinutes`, where `config` may be nil
  pub availability_ttl_minutes : Option Int64

module _ (env : Env) where
  abbrev pub send : Call → Exec Call (Unit {0})
  send c = call c (env.reply c)

  abbrev pub time_now : Exec Call Time
  time_now t = call now (λ h. Result.ok (env.clock h)) t

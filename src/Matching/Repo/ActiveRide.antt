-- ===== src/Matching/Repo/ActiveRide.antt =====
-- services/match/repository/match.go: SetActiveRide, RemoveActiveRide, GetActiveRideByDriver,
-- GetActiveRideByPassenger; the keys are from internal/pkg/constants/redis.go.
use nebengjek.Prelude.{
  ◌*◌, ◌%◌, ◌^◌, Str, str, ◌++◌, ◌&&◌, Option, none, some, [], ltb, if◌then◌else◌,
}
use nebengjek.Exec.{
  external, no_rows, redis_nil, message, wrap, Result, ok, err, Exec, pure, call, attempt,
  of_result, wrapping, ◌>>=◌, ◌>>◌,
}
use nebengjek.Domain.Places.{Int64}
use nebengjek.Matching.Env.{Call, redis_set, redis_delete, redis_get, MatchConfig, Env, send}

-- `fmt.Sprintf(KeyActiveRideDriver, driverID)`
unfoldable pub key_active_ride_driver : Str → Str
key_active_ride_driver driver_id = str "active_ride:driver:" ++ driver_id

unfoldable pub key_active_ride_passenger : Str → Str
key_active_ride_passenger passenger_id = str "active_ride:passenger:" ++ passenger_id

-- The configured hours if they are positive as an int, else 24.
unfoldable pub ttl_hours : Option MatchConfig → Int64
ttl_hours none = 24
ttl_hours (some cfg) =
    if ltb 0 cfg.active_ride_ttl_hours && ltb cfg.active_ride_ttl_hours (2 ^ 63)
    then cfg.active_ride_ttl_hours
    else 24

-- `time.Duration(ttlHours) * time.Hour`, in nanoseconds, as an int64.
unfoldable pub ttl : Option MatchConfig → Int64
unfolding ttl_hours
ttl cfg = ttl_hours cfg * 3600000000000 % 2 ^ 64

-- `redis.Nil` is no error: it means that there is no active ride.
abbrev pub empty_if_nil : Str → Result Str → Result Str
empty_if_nil s (ok ride_id) = ok ride_id
empty_if_nil s (err redis_nil) = ok []
empty_if_nil s (err (external x)) = err (wrap s (external x))
empty_if_nil s (err no_rows) = err (wrap s no_rows)
empty_if_nil s (err (message x)) = err (wrap s (message x))
empty_if_nil s (err (wrap x e)) = err (wrap s (wrap x e))

module _ (env : Env) where
  unfoldable pub set_active_ride : Str → Str → Str → Exec Call (Unit {0})
  set_active_ride driver_id passenger_id ride_id = do
    wrapping (str "failed to set active ride for driver")
        (send env (redis_set (key_active_ride_driver driver_id) ride_id (ttl env.repo_cfg)))
    wrapping (str "failed to set active ride for passenger")
        (send env (redis_set (key_active_ride_passenger passenger_id) ride_id (ttl env.repo_cfg)))

  -- Neither failure is returned.
  unfoldable pub remove_active_ride : Str → Str → Exec Call (Unit {0})
  remove_active_ride driver_id passenger_id = do
    attempt (send env (redis_delete (key_active_ride_driver driver_id)))
    attempt (send env (redis_delete (key_active_ride_passenger passenger_id)))
    pure tt

  unfoldable pub get_active_ride_by_driver : Str → Exec Call Str
  get_active_ride_by_driver driver_id = do
    r ← attempt (
        call (redis_get (key_active_ride_driver driver_id))
          (env.text_reply (redis_get (key_active_ride_driver driver_id))))
    of_result (empty_if_nil (str "failed to get active ride for driver") r)

  unfoldable pub get_active_ride_by_passenger : Str → Exec Call Str
  get_active_ride_by_passenger passenger_id = do
    r ← attempt (
        call (redis_get (key_active_ride_passenger passenger_id))
          (env.text_reply (redis_get (key_active_ride_passenger passenger_id))))
    of_result (empty_if_nil (str "failed to get active ride for passenger") r)

-- ===== src/Locating/Usecase.antt =====
-- services/location/usecase/location.go, and handleLocationUpdate of
-- services/location/handler/nats.go. The other operations of the use case only pass the call on to
-- the repository.
use nebengjek.Prelude.{Str, str}
use nebengjek.Exec.{Result, ok, err, Exec, attempt, of_result, wrapping, ◌>>=◌, ◌>>◌}
use nebengjek.Domain.Places.{Location}
use nebengjek.Domain.Geo.{GeoPoint, calculate_distance}
use nebengjek.Domain.Rides.{LocationUpdate, LocationAggregate}
use nebengjek.Locating.Env.{Call, publish_location_aggregate, Env, send}
use nebengjek.Locating.Repo

abbrev pub geo_point : Location → GeoPoint
geo_point l = record { latitude = l.latitude; longitude = l.longitude }

module _ (env : Env) where
  unfoldable pub aggregate_of : Location → LocationUpdate → LocationAggregate
  aggregate_of last update = record {
    ride_id = update.ride_id;
    distance = calculate_distance env.floats (geo_point last) (geo_point update.location);
    latitude = update.location.latitude;
    longitude = update.location.longitude;
  }

  -- Every failure of the look-up counts as "no previous location".
  store_after : LocationUpdate → Result Location → Exec Call (Unit {0})
  store_after update (err e) =
      wrapping (str "failed to store initial location")
        (Repo.store_location env update.ride_id update.location)
  store_after update (ok last) = do
    wrapping (str "failed to store location")
        (Repo.store_location env update.ride_id update.location)
    wrapping (str "failed to publish location aggregate")
        (send env (publish_location_aggregate (aggregate_of last update)))

  unfoldable pub store_location : LocationUpdate → Exec Call (Unit {0})
  unfolding store_after
  store_location update = do
    last ← attempt (Repo.get_last_location env update.ride_id)
    store_after update last

  unfoldable pub handle_location_update : (Str → Result LocationUpdate) → Str → Exec Call (Unit {0})
  handle_location_update decode msg = do update ← of_result (decode msg); store_location update

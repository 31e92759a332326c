-- ===== src/Locating/Repo.antt =====
-- services/location/repository/location.go; the keys are from internal/pkg/constants/redis.go.
use nebengjek.Prelude.{
  Str, str, str_eq, ◌++◌, ◌*◌, ◌%◌, ◌^◌, ◌&&◌, ltb, Bool, true, false, Option, none, some, List, [],
  ◌∷◌, if◌then◌else◌,
}
use nebengjek.Exec.{message, Exec, pure, fail, call, of_result, wrapping, ◌>>=◌, ◌>>◌}
use nebengjek.Domain.Places.{Float64, Int64, Location}
use nebengjek.Domain.Matches.{NearbyUser}
use nebengjek.Locating.Env.{
  GeoLocation, Call, geo_add, expire, set_add, hash_set, sorted_remove, set_remove, redis_delete,
  geo_radius, set_is_member, hash_get, hash_get_all, Env, send, time_now,
}

abbrev pub key_driver_geo : Str
key_driver_geo = str "driver:geo"

abbrev pub key_passenger_geo : Str
key_passenger_geo = str "passenger:geo"

abbrev pub key_available_drivers : Str
key_available_drivers = str "drivers:available"

abbrev pub key_available_passengers : Str
key_available_passengers = str "passengers:available"

-- The `%s` of a format of keys stands at its end: a template is what precedes it.
abbrev pub key_driver_location : Str
key_driver_location = str "driver:location:"

abbrev pub key_passenger_location : Str
key_passenger_location = str "passenger:location:"

abbrev pub key_ride_location : Str → Str
key_ride_location ride_id = str "rides:location:" ++ ride_id

-- `24 * time.Hour`, in nanoseconds.
abbrev pub location_ttl : Int64
location_ttl = 86400000000000

-- The configured minutes if they are positive as an int, else 30.
ttl_minutes : Option Int64 → Int64
ttl_minutes none = 30
ttl_minutes (some n) = if ltb 0 n && ltb n (2 ^ 63) then n else 30

-- In nanoseconds, as an int64.
unfoldable pub availability_ttl : Option Int64 → Int64
unfolding ttl_minutes
availability_ttl minutes = ttl_minutes minutes * 60000000000 % 2 ^ 64

-- `if v != ""` for some value.
abbrev pub has_value : List Str → Bool
has_value [] = false
has_value ([] ∷ values) = has_value values
has_value ((c ∷ s) ∷ values) = true

-- `fields[name]`, if it is there.
abbrev pub field : Str → List (Str × Str) → Option Str
field name [] = none
field name ((k, v) ∷ rest) = if str_eq k name then some v else field name rest

-- `if s, ok := fields[name]; ok { x, _ = parse(s) }`, where `x` starts at 0.
abbrev pub value_or_zero : (Str → Int64) → Option Str → Int64
value_or_zero parse none = 0
value_or_zero parse (some s) = parse s

module _ (env : Env) where
  unfoldable pub store_location : Str → Location → Exec Call (Unit {0})
  store_location ride_id location = do
    wrapping (str "failed to store location update") (
        send env (
          hash_set (key_ride_location ride_id) (record {
            lat = env.format_float location.latitude;
            lng = env.format_float location.longitude;
            ts = env.format_int (env.unix location.timestamp);
          })))
    wrapping (str "failed to set location TTL")
        (send env (expire (key_ride_location ride_id) location_ttl))

  parse_location : Str → Str → Str → Exec Call Location
  parse_location lat lng ts = do
    latitude ← wrapping (str "invalid latitude") (of_result (env.parse_float lat))
    longitude ← wrapping (str "invalid longitude") (of_result (env.parse_float lng))
    seconds ← wrapping (str "invalid timestamp") (of_result (env.parse_int ts))
    pure (record { latitude = latitude; longitude = longitude; timestamp = env.of_unix seconds })

  -- `if !hasValue || len(values) != 3`
  location_of : Str → Bool → List Str → Exec Call Location
  unfolding parse_location
  location_of ride_id true (lat ∷ lng ∷ ts ∷ []) = parse_location lat lng ts
  location_of ride_id b values = fail (message (str "no location data found for ride " ++ ride_id))

  unfoldable pub get_last_location : Str → Exec Call Location
  unfolding location_of
  get_last_location ride_id = do
    values ← wrapping (str "failed to get location data") (
        call (hash_get (key_ride_location ride_id))
          (env.fields_reply (hash_get (key_ride_location ride_id))))
    location_of ride_id (has_value values) values

  unfoldable pub add_to_redis_geo : Str → Str → Str → Str → Location → Exec Call (Unit {0})
  add_to_redis_geo geo_key available_key template user_id location = do
    wrapping (str "failed to add to geo index")
        (send env (geo_add geo_key location.longitude location.latitude user_id))
    wrapping (str "failed to set geo index TTL")
        (send env (expire geo_key (availability_ttl env.availability_ttl_minutes)))
    wrapping (str "failed to add to available set") (send env (set_add available_key user_id))
    wrapping (str "failed to set available set TTL")
        (send env (expire available_key (availability_ttl env.availability_ttl_minutes)))
    t ← time_now env
    wrapping (str "failed to store location") (
        send env (
          hash_set (template ++ user_id) (record {
            lat = env.client_float location.latitude;
            lng = env.client_float location.longitude;
            ts = env.format_int (env.unix t);
          })))
    wrapping (str "failed to set location TTL")
        (send env (expire (template ++ user_id) (availability_ttl env.availability_ttl_minutes)))

  unfoldable pub remove_from_redis_geo : Str → Str → Str → Str → Exec Call (Unit {0})
  remove_from_redis_geo geo_key available_key template user_id = do
    wrapping (str "failed to remove from geo index") (send env (sorted_remove geo_key user_id))
    wrapping (str "failed to remove from available set")
        (send env (set_remove available_key user_id))
    wrapping (str "failed to remove location data") (send env (redis_delete (template ++ user_id)))

  unfoldable pub add_available_driver : Str → Location → Exec Call (Unit {0})
  add_available_driver driver_id location =
      add_to_redis_geo key_driver_geo key_available_drivers key_driver_location driver_id location

  unfoldable pub remove_available_driver : Str → Exec Call (Unit {0})
  remove_available_driver driver_id =
      remove_from_redis_geo key_driver_geo key_available_drivers key_driver_location driver_id

  unfoldable pub add_available_passenger : Str → Location → Exec Call (Unit {0})
  add_available_passenger passenger_id location =
      add_to_redis_geo key_passenger_geo key_available_passengers key_passenger_location
        passenger_id location

  unfoldable pub remove_available_passenger : Str → Exec Call (Unit {0})
  remove_available_passenger passenger_id =
      remove_from_redis_geo key_passenger_geo key_available_passengers key_passenger_location
        passenger_id

  -- A member is appended with the time at which it was found.
  append_if : Bool → GeoLocation → Exec Call (List NearbyUser)
  append_if false found = pure []
  append_if true found = do
    t ← time_now env
    pure (
        (record {
          id = found.name;
          location = record {
            latitude = found.latitude;
            longitude = found.longitude;
            timestamp = t;
          };
          distance = found.dist;
        })
        ∷ [])

  -- The loop over the answers of GEORADIUS.
  unfoldable pub keep_available : Str → List GeoLocation → Exec Call (List NearbyUser)
  unfolding append_if
  keep_available available_key [] = pure []
  keep_available available_key (found ∷ rest) =
      let others = keep_available available_key rest in
      do
        is_member ← wrapping (str "failed to check user availability") (
            call (set_is_member available_key found.name)
              (env.member_reply (set_is_member available_key found.name)))
        first ← append_if is_member found
        users ← others
        pure (first ++ users)

  unfoldable pub find_nearby_users : Str → Str → Location → Float64 → Exec Call (List NearbyUser)
  find_nearby_users geo_key available_key location radius_km = do
    let query = geo_radius geo_key location.longitude location.latitude radius_km
    found ← wrapping (str "failed to find nearby users") (call query (env.geo_reply query))
    keep_available available_key found

  unfoldable pub find_nearby_drivers : Location → Float64 → Exec Call (List NearbyUser)
  find_nearby_drivers location radius_km =
      find_nearby_users key_driver_geo key_available_drivers location radius_km

  -- `if len(fields) > 0`
  location_of_fields : Str → List (Str × Str) → Exec Call Location
  location_of_fields missing [] = fail (message missing)
  location_of_fields missing (f ∷ fields) = pure (record {
    latitude = value_or_zero env.float_value (field (str "lat") (f ∷ fields));
    longitude = value_or_zero env.float_value (field (str "lng") (f ∷ fields));
    timestamp = env.of_unix (value_or_zero env.int_value (field (str "ts") (f ∷ fields)));
  })

  user_location : Str → Str → Exec Call Location
  unfolding location_of_fields
  user_location key missing = do
    fields ←
        wrapping (str "failed to get location from Redis")
          (call (hash_get_all key) (env.map_reply (hash_get_all key)))
    location_of_fields missing fields

  unfoldable pub get_driver_location : Str → Exec Call Location
  unfolding user_location
  get_driver_location driver_id =
      user_location (key_driver_location ++ driver_id)
        (str "no location data found for driver " ++ driver_id)

  unfoldable pub get_passenger_location : Str → Exec Call Location
  unfolding user_location
  get_passenger_location passenger_id =
      user_location (key_passenger_location ++ passenger_id)
        (str "no location data found for passenger " ++ passenger_id)

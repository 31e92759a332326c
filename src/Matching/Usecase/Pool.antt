-- ===== src/Matching/Usecase/Pool.antt =====
-- services/match/usecase/match.go: the pools of available users and the active rides, with
-- HandleBeaconEvent.
use nebengjek.Prelude.{Str, str, str_eq, Bool, true, false, [], ◌∷◌, if◌then◌else◌}
use nebengjek.Exec.{Result, ok, err, Exec, pure, attempt, wrapping, ◌>>=◌}
use nebengjek.Domain.Places.{Location}
use nebengjek.Domain.Events.{BeaconEvent}
use nebengjek.Matching.Env.{
  Call, add_available_driver, remove_available_driver, remove_available_passenger, Env, send,
}
use nebengjek.Matching.Repo.ActiveRide.{get_active_ride_by_driver, get_active_ride_by_passenger}

-- `rideID != ""`
abbrev pub is_ride : Str → Bool
is_ride [] = false
is_ride (c ∷ s) = true

-- `&models.Location{Latitude: ..., Longitude: ...}`: the timestamp is left at zero.
abbrev pub position : Location → Location
position l = record l { timestamp = 0 }

module _ (env : Env) where
  unfoldable pub add_driver_to_pool : Str → Location → Exec Call (Unit {0})
  add_driver_to_pool driver_id location = send env (add_available_driver driver_id location)

  unfoldable pub handle_inactive_user : Str → Str → Exec Call (Unit {0})
  handle_inactive_user user_id role =
      if str_eq role (str "driver")
      then send env (remove_available_driver user_id)
      else send env (remove_available_passenger user_id)

  unfoldable pub has_active_ride : Str → Bool → Exec Call Bool
  has_active_ride user_id is_driver = do
    ride_id ← wrapping (str "failed to check active ride") (
        if is_driver
        then get_active_ride_by_driver env user_id
        else get_active_ride_by_passenger env user_id)
    pure (is_ride ride_id)

  -- A failed check does not stop the driver from joining the pool.
  join_unless_riding : Str → Location → Result Bool → Exec Call (Unit {0})
  unfolding add_driver_to_pool
  join_unless_riding user_id location (ok true) = pure tt
  join_unless_riding user_id location (ok false) = add_driver_to_pool user_id location
  join_unless_riding user_id location (err e) = add_driver_to_pool user_id location

  handle_active_driver : BeaconEvent → Exec Call (Unit {0})
  unfolding has_active_ride join_unless_riding
  handle_active_driver event = do
    riding ← attempt (has_active_ride event.user_id true)
    join_unless_riding event.user_id (position event.location) riding

  unfoldable pub handle_beacon_event : BeaconEvent → Exec Call (Unit {0})
  unfolding handle_active_driver handle_inactive_user
  handle_beacon_event event =
      if event.is_active
      then handle_active_driver event
      else handle_inactive_user event.user_id (str "driver")

  unfoldable pub remove_driver_from_pool : Str → Exec Call (Unit {0})
  remove_driver_from_pool driver_id =
      wrapping (str "failed to remove driver from available pool")
        (send env (remove_available_driver driver_id))

  unfoldable pub remove_passenger_from_pool : Str → Exec Call (Unit {0})
  remove_passenger_from_pool passenger_id =
      wrapping (str "failed to remove passenger from available pool")
        (send env (remove_available_passenger passenger_id))

-- ===== src/Matching/Laws/Locks.antt =====
-- What the events of a ride do to the pools: handleRidePickup and handleRideCompleted of
-- services/match/handler/nats/nats.go, followed by a beacon or a finder event.
use nebengjek.Matching.Usecase.Pool
use nebengjek.Matching.Usecase.Propose
use nebengjek.Prelude.{
  ltb, ◌&&◌, ◌*◌, ◌%◌, ◌^◌, ℕ, Option, none, some, refl, if◌then◌else◌, str_eq_refl, ◌∷◌, ◌≡◌,
  arith, true, Str,
}
use nebengjek.Exec.{outcome, Result, ok, returned}
use nebengjek.Matching.Env.{
  MatchConfig, redis_set, remove_available_driver, remove_available_passenger, add_available_driver,
  redis_delete, History, Env, redis_get,
}
use nebengjek.Matching.Handler.{handle_ride_completed, handle_ride_pickup}
use nebengjek.Matching.Repo.ActiveRide.{
  ttl, remove_active_ride, key_active_ride_passenger, key_active_ride_driver,
  get_active_ride_by_passenger, get_active_ride_by_driver, set_active_ride,
}
use nebengjek.Matching.Laws.ActiveRides.{
  beacon_pool, keys_differ', keys_differ, AnswersGet, AnswersAt, stored_text,
}
use nebengjek.Domain.Rides.{RideComplete, RideResp}
use nebengjek.Domain.Events.{FinderEvent, BeaconEvent}
use nebengjek.Matching.Usecase.Pool.{position, is_ride}

-- How long a ride is kept: the configured hours if they are positive as an int, else 24.
unfoldable pub hours_kept : Option MatchConfig → ℕ
hours_kept none = 24
hours_kept (some cfg) =
    if ltb 0 cfg.active_ride_ttl_hours && ltb cfg.active_ride_ttl_hours (2 ^ 63)
    then cfg.active_ride_ttl_hours
    else 24

kept : (cfg : Option MatchConfig) → ttl cfg ≡ hours_kept cfg * 3600000000000 % 2 ^ 64
unfolding ttl hours_kept
kept none = refl
kept (some cfg) = refl

-- After a pickup whose two Redis writes were acknowledged, and as long as Redis answers the look-ups
-- of a beacon of the driver and of a finder event of the passenger with what was written, both
-- succeed and do nothing but that look-up: the driver does not join the pool and the passenger is
-- not matched. The ride is written under both keys for the configured hours, or for 24, and then
-- the two are taken out of the pools. A look-up that fails, or after these hours, is not spoken of.
pub pickup_locks :
    (env : Env) (decode : Str → Result RideResp) (msg : Str) (ride : RideResp)
    (beacon : BeaconEvent) (finder : FinderEvent) (t : History)
    → decode msg ≡ ok ride
    → is_ride ride.ride_id ≡ true
    → (set_active_ride env ride.driver_id ride.passenger_id ride.ride_id t).0 ≡ returned tt
    → beacon.user_id ≡ ride.driver_id
    → beacon.is_active ≡ true
    → finder.user_id ≡ ride.passenger_id
    → finder.is_active ≡ true
    → AnswersAt env (key_active_ride_driver ride.driver_id) (handle_ride_pickup env decode msg t).1
    → AnswersAt env
        (key_active_ride_passenger ride.passenger_id)
        (handle_ride_pickup env decode msg t).1
    → let (locked, t') = handle_ride_pickup env decode msg t in
      let for_hours = hours_kept env.repo_cfg * 3600000000000 % 2 ^ 64 in
      (locked ≡ returned tt)
      × (t'
          ≡ remove_available_passenger ride.passenger_id
            ∷ remove_available_driver ride.driver_id
            ∷ redis_set (key_active_ride_passenger ride.passenger_id) ride.ride_id for_hours
            ∷ redis_set (key_active_ride_driver ride.driver_id) ride.ride_id for_hours
            ∷ t)
      × (Pool.handle_beacon_event env beacon t'
          ≡ (returned tt, redis_get (key_active_ride_driver ride.driver_id) ∷ t'))
      × (Propose.handle_finder_event env finder t'
          ≡ (returned tt, redis_get (key_active_ride_passenger ride.passenger_id) ∷ t'))
unfolding handle_ride_pickup Pool.remove_driver_from_pool Pool.remove_passenger_from_pool
    set_active_ride stored_text Pool.has_active_ride Pool.handle_beacon_event
    Propose.handle_finder_event get_active_ride_by_driver get_active_ride_by_passenger
pickup_locks env decode msg ride beacon finder t a b c d e f g driver passenger =
    let n = keys_differ ride.driver_id ride.passenger_id in
    let n' = keys_differ' ride.driver_id ride.passenger_id in
    let s = str_eq_refl (key_active_ride_driver ride.driver_id) in
    let s' = str_eq_refl (key_active_ride_passenger ride.passenger_id) in
    let k = kept env.repo_cfg in (ground arith, ground arith, ground arith, ground arith)

-- After a completed ride whose two Redis deletions were acknowledged, and while nothing else has
-- been written, an active beacon of its driver looks up the ride and then joins the pool.
pub completed_unlocks :
    (env : Env) (decode : Str → Result RideComplete) (msg : Str) (done : RideComplete)
    (beacon : BeaconEvent) (t : History)
    → AnswersGet env
    → decode msg ≡ ok done
    → let driver_id = env.uuid_string done.ride.driver_id in
      let deleted = redis_delete (key_active_ride_driver driver_id) ∷ t in
      env.reply (redis_delete (key_active_ride_driver driver_id)) t ≡ ok tt
      → env.reply
          (redis_delete (key_active_ride_passenger (env.uuid_string done.ride.passenger_id)))
          deleted
        ≡ ok tt
      → beacon.user_id ≡ driver_id
      → beacon.is_active ≡ true
      → let (unlocked, t') = handle_ride_completed env decode msg t in
        let look = redis_get (key_active_ride_driver driver_id) ∷ t' in
        let join = add_available_driver driver_id (position beacon.location) in
        (unlocked ≡ returned tt)
        × (Pool.handle_beacon_event env beacon t' ≡ (outcome (env.reply join look), join ∷ look))
unfolding handle_ride_completed remove_active_ride stored_text
completed_unlocks env decode msg done beacon t law a b c d e =
    let t' = (handle_ride_completed env decode msg t).1 in
    let driver = law (key_active_ride_driver beacon.user_id) t' in
    let pool = beacon_pool env beacon t' in
    let n =
      keys_differ (env.uuid_string done.ride.driver_id) (env.uuid_string done.ride.passenger_id) in
    let n' =
      keys_differ' (env.uuid_string done.ride.driver_id) (env.uuid_string done.ride.passenger_id) in
    let s = str_eq_refl (key_active_ride_driver (env.uuid_string done.ride.driver_id)) in
    (ground arith, ground arith)

-- ===== src/Tests/Locks.antt =====
-- The theorems about the events of a ride in the match service at concrete inputs.
use nebengjek.Matching.Usecase.Pool
use nebengjek.Matching.Usecase.Propose
use nebengjek.Prelude.{◌*◌, ◌%◌, ◌^◌, str, true, Str, refl, [], ◌∷◌, ◌≡◌}
use nebengjek.Tests.MatchWorld.{redis_world-AnswersGet, beacon, redis_world}
use nebengjek.Domain.Rides.{RideStatus, RideResp, RideComplete}
use nebengjek.Matching.Repo.ActiveRide.{
  key_active_ride_passenger, key_active_ride_driver, set_active_ride,
}
use nebengjek.Matching.Handler.{handle_ride_pickup}
use nebengjek.Domain.Events.{FinderEvent}
use nebengjek.Exec.{ok, returned, Result}
use nebengjek.Tests.RideWorld.{bill, trip}
use nebengjek.Matching.Env.{
  redis_get, redis_set, remove_available_passenger, remove_available_driver,
}
use nebengjek.Domain.Places.{zero_location}
use nebengjek.Matching.Laws.Locks.{pickup_locks, hours_kept}
use nebengjek.Matching.Usecase.Pool.{position}

abbrev picked_up : RideResp
picked_up = record {
  ride_id = 9 ∷ [];
  match_id = 1 ∷ [];
  driver_id = 2 ∷ [];
  passenger_id = 3 ∷ [];
  status = str "PICKUP";
  total_cost = 0;
  created_at = 7;
  updated_at = 7;
}

abbrev decode_pickup : Str → Result RideResp
decode_pickup msg = ok picked_up

abbrev finder : FinderEvent
finder = record {
  user_id = 3 ∷ [];
  is_active = true;
  location = zero_location;
  target_location = zero_location;
  timestamp = 0;
}

locks : (set_active_ride redis_world (2 ∷ []) (3 ∷ []) (9 ∷ []) []).0 ≡ returned tt
unfolding set_active_ride
locks = refl

pickup_locks_example :
    let (locked, t') = handle_ride_pickup redis_world decode_pickup [] [] in
    let for_hours = hours_kept redis_world.repo_cfg * 3600000000000 % 2 ^ 64 in
    (locked ≡ returned tt)
    × (t'
        ≡ remove_available_passenger (3 ∷ [])
          ∷ remove_available_driver (2 ∷ [])
          ∷ redis_set (key_active_ride_passenger (3 ∷ [])) (9 ∷ []) for_hours
          ∷ redis_set (key_active_ride_driver (2 ∷ [])) (9 ∷ []) for_hours
          ∷ [])
    × (Pool.handle_beacon_event redis_world beacon t'
        ≡ (returned tt, redis_get (key_active_ride_driver (2 ∷ [])) ∷ t'))
    × (Propose.handle_finder_event redis_world finder t'
        ≡ (returned tt, redis_get (key_active_ride_passenger (3 ∷ [])) ∷ t'))
pickup_locks_example =
    pickup_locks redis_world decode_pickup [] picked_up beacon finder [] refl refl locks refl refl
      refl refl (redis_world-AnswersGet _ _) (redis_world-AnswersGet _ _)

abbrev completed_ride : RideComplete
completed_ride = record { ride = trip RideStatus.completed; payment = bill }

abbrev decode_completed : Str → Result RideComplete
decode_completed msg = ok completed_ride

-- ===== src/Matching/Handler.antt =====
-- services/match/handler/nats/nats.go: what the match service does with a message. The decoding of
-- JSON is a parameter; an error makes the consumer deliver the message again.
use nebengjek.Prelude.{Str}
use nebengjek.Exec.{Result, Exec, pure, attempt, of_result, ◌>>=◌, ◌>>◌}
use nebengjek.Domain.Events.{BeaconEvent, FinderEvent}
use nebengjek.Domain.Rides.{RideResp, RideComplete}
use nebengjek.Matching.Env.{Call, Env}
use nebengjek.Matching.Repo.ActiveRide.{set_active_ride, remove_active_ride}
use nebengjek.Matching.Usecase.Pool
use nebengjek.Matching.Usecase.Propose

module _ (env : Env) where
  unfoldable pub handle_beacon_event : (Str → Result BeaconEvent) → Str → Exec Call (Unit {0})
  handle_beacon_event decode msg = do
    event ← of_result (decode msg)
    Pool.handle_beacon_event env event

  unfoldable pub handle_finder_event : (Str → Result FinderEvent) → Str → Exec Call (Unit {0})
  handle_finder_event decode msg = do
    event ← of_result (decode msg)
    Propose.handle_finder_event env event

  -- The failures of the three steps are logged. SetActiveRide and RemoveActiveRide of the use case
  -- only pass the call on.
  unfoldable pub handle_ride_pickup : (Str → Result RideResp) → Str → Exec Call (Unit {0})
  handle_ride_pickup decode msg = do
    ride ← of_result (decode msg)
    attempt (set_active_ride env ride.driver_id ride.passenger_id ride.ride_id)
    attempt (Pool.remove_driver_from_pool env ride.driver_id)
    attempt (Pool.remove_passenger_from_pool env ride.passenger_id)
    pure tt

  unfoldable pub handle_ride_completed : (Str → Result RideComplete) → Str → Exec Call (Unit {0})
  handle_ride_completed decode msg = do
    done ← of_result (decode msg)
    attempt (
        remove_active_ride env (env.uuid_string done.ride.driver_id)
          (env.uuid_string done.ride.passenger_id))
    pure tt

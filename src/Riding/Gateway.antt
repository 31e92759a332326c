-- ===== src/Riding/Gateway.antt =====
-- services/rides/gateway/nats.go: the events of a ride. The encoding of JSON and the text of a uuid are
-- arguments.
use nebengjek.Prelude.{Str, str, []}
use nebengjek.Exec.{Result, Exec}
use nebengjek.Domain.Places.{Uuid}
use nebengjek.Domain.Rides.{Ride, RideResp, RideComplete, ride_status_text}
use nebengjek.Nats.Publish.{Call, Env, seconds, publish_event}

module _ (env : Env) (uuid_string : Uuid → Str) where
  unfoldable pub pickup_response : Ride → RideResp
  pickup_response ride = record {
    ride_id = uuid_string ride.ride_id;
    match_id = uuid_string ride.match_id;
    driver_id = uuid_string ride.driver_id;
    passenger_id = uuid_string ride.passenger_id;
    status = ride_status_text ride.status;
    total_cost = ride.total_cost;
    created_at = ride.created_at;
    updated_at = ride.updated_at;
  }

  unfoldable pub publish_ride_pickup : (RideResp → Result Str) → Ride → Exec Call (Unit {0})
  unfolding publish_event
  publish_ride_pickup encode ride =
      publish_event env (str "ride pickup response") (str "ride pickup event") (str "ride.pickup")
        (str "ride-pickup") (uuid_string ride.ride_id) (seconds 15) (encode (pickup_response ride))

  -- The response of a started ride does not set the match.
  unfoldable pub started_response : Ride → RideResp
  unfolding pickup_response
  started_response ride = record (pickup_response ride) { match_id = [] }

  unfoldable pub publish_ride_started : (RideResp → Result Str) → Ride → Exec Call (Unit {0})
  unfolding publish_event
  publish_ride_started encode ride =
      publish_event env (str "ride started response") (str "ride started event")
        (str "ride.started") (str "ride-started") (uuid_string ride.ride_id) (seconds 15)
        (encode (started_response ride))

  unfoldable pub publish_ride_completed :
      (RideComplete → Result Str) → RideComplete → Exec Call (Unit {0})
  unfolding publish_event
  publish_ride_completed encode complete =
      publish_event env (str "ride complete event") (str "ride completed event")
        (str "ride.completed") (str "ride-completed") (uuid_string complete.ride.ride_id)
        (seconds 15) (encode complete)

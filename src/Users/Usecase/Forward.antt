-- ===== src/Users/Usecase/Forward.antt =====
-- services/users/usecase/beacon.go, finder.go, location.go, match.go and rides.go: requests that
-- are checked and passed on to the other services.
use nebengjek.Prelude.{str, str_eq, ◌++◌, ◌==◌, Bool, not, ◌&&◌, Option, none, some, if◌then◌else◌}
use nebengjek.Exec.{message, Exec, pure, fail, call, wrapping, fail_if, ◌>>=◌, ◌>>◌}
use nebengjek.Domain.Places.{Float64, Time, Location}
use nebengjek.Domain.Floats.{zero_f}
use nebengjek.Domain.Matches.{MatchProposal, MatchConfirmRequest}
use nebengjek.Domain.Rides.{
  LocationUpdate, RideArrivalReq, RideStartRequest, PaymentRequest, PaymentProccessRequest, Payment,
  Ride,
}
use nebengjek.Domain.Users.{BeaconRequest, FinderRequest}
use nebengjek.Users.Env.{
  Call, publish_beacon_event, publish_finder_event, publish_location_update, match_confirm, Env,
  send, time_now,
}
use nebengjek.Users.Repo
use nebengjek.Users.Repo.{is_driver}

module _ (env : Env) where
  unfoldable pub update_beacon_status : BeaconRequest → Exec Call (Unit {0})
  update_beacon_status req = do
    user ← Repo.get_user_by_msisdn env req.msisdn
    t ← time_now env
    send env (
        publish_beacon_event (record {
          user_id = env.uuid_string user.id;
          is_active = req.is_active;
          location = record { latitude = req.latitude; longitude = req.longitude; timestamp = 0 };
          timestamp = t;
        }))

  unfoldable pub update_finder_status : FinderRequest → Exec Call (Unit {0})
  update_finder_status req = do
    user ← Repo.get_user_by_msisdn env req.msisdn
    t ← time_now env
    send env (
        publish_finder_event (record {
          user_id = env.uuid_string user.id;
          is_active = req.is_active;
          location = req.location;
          target_location = req.target_location;
          timestamp = t;
        }))

  -- `x == 0` on float64, where a NaN differs and a negative zero does not.
  is_zero : Float64 → Bool
  is_zero x = env.floats.le x zero_f && env.floats.le zero_f x

  unfoldable pub at_origin : Location → Bool
  unfolding is_zero
  at_origin l = is_zero l.latitude && is_zero l.longitude

  -- `if lu.Location.Timestamp.IsZero()`
  abbrev pub given_or_now : Time → Exec Call Time
  given_or_now t = if t == 0 then time_now env else pure t

  unfoldable pub update_user_location : Option LocationUpdate → Exec Call (Unit {0})
  update_user_location none = fail (message (str "location cannot be nil"))
  update_user_location (some lu) = do
    fail_if (at_origin lu.location) (message (str "invalid location coordinates"))
    user ← wrapping (str "failed to get user") (Repo.get_user_by_id env lu.driver_id)
    fail_if (not (is_driver user)) (message (str "user is not a driver"))
    t ← given_or_now lu.location.timestamp
    send env
        (publish_location_update (record lu { location = record lu.location { timestamp = t } }))

  unfoldable pub confirm_match : MatchConfirmRequest → Exec Call MatchProposal
  confirm_match mp = do
    fail_if (not (str_eq mp.status (str "ACCEPTED")) && not (str_eq mp.status (str "REJECTED")))
        (message (str "invalid match status: " ++ mp.status))
    user ← wrapping (str "failed to get user") (Repo.get_user_by_id env mp.user_id)
    let req : MatchConfirmRequest = record mp { role = user.role }
    call (match_confirm req) (env.proposal_reply (match_confirm req))

  unfoldable pub ride_arrived : RideArrivalReq → Exec Call PaymentRequest
  ride_arrived event =
      wrapping (str "failed to notify ride service of arrival via HTTP")
        (call (Call.ride_arrived event) (env.payment_request_reply (Call.ride_arrived event)))

  unfoldable pub process_payment : PaymentProccessRequest → Exec Call Payment
  process_payment req =
      wrapping (str "failed to process payment")
        (call (Call.process_payment req) (env.payment_reply (Call.process_payment req)))

  unfoldable pub ride_start : RideStartRequest → Exec Call Ride
  ride_start event =
      wrapping (str "failed to start ride via HTTP")
        (call (Call.start_ride event) (env.ride_reply (Call.start_ride event)))

-- ===== src/Http/Gateways.antt =====
-- The gateways that call another service by HTTP: services/match/gateway/http.go and
-- services/users/gateway/http. Their `Error` of a failed call is passed on under a prefix.
use nebengjek.Prelude.{Str, str, ◌++◌, leb, List, [], Option, none, some, format_int}
use nebengjek.Exec.{message, Result, Exec, pure, deferring, wrapping, fail_if, ◌>>=◌, ◌>>◌}
use nebengjek.Domain.Places.{Float64, Location, zero_location}
use nebengjek.Domain.Matches.{NearbyUser, MatchConfirmRequest, MatchProposal}
use nebengjek.Domain.Rides.{
  RideStartRequest, RideArrivalReq, PaymentProccessRequest, PaymentRequest, Payment, Ride,
}
use nebengjek.Http.Client.{
  Call, Env, Response, close_body, delete, response_or_fail, get_json, post_json,
}

-- JSON and `%f`.
pub record Codec : Type 0 where
  pub encode_location : Location → Result Str
  pub encode_confirm : MatchConfirmRequest → Result Str
  pub encode_start : RideStartRequest → Result Str
  pub encode_arrival : RideArrivalReq → Result Str
  pub encode_payment : PaymentProccessRequest → Result Str
  pub decode_status : Str → Result (List (Str × Str))
  pub decode_nearby : Str → Result (List NearbyUser)
  pub decode_location : Str → Result Location
  pub decode_proposal : Str → Result MatchProposal
  pub decode_ride : Str → Result Ride
  pub decode_payment_request : Str → Result PaymentRequest
  pub decode_payment : Str → Result Payment
  pub format_float : Float64 → Str

-- What a variable holds after it was decoded into, or not.
abbrev pub or_initial : {A : Type 0} → A → Option A → A
or_initial initial none = initial
or_initial initial (some a) = a

module _ (env : Env) (codec : Codec) where
  unfoldable pub add_available_driver : Str → Location → Exec Call (Unit {0})
  add_available_driver driver_id location = do
    wrapping (str "failed to add available driver") (
        post_json env (str "/internal/drivers/" ++ (driver_id ++ str "/available"))
          (some (codec.encode_location location)) (some codec.decode_status))
    pure tt

  -- `if resp.StatusCode >= 400`
  abbrev pub accepted_or_fail : Str → Response → Exec Call (Unit {0})
  accepted_or_fail what r = deferring close_body (
      wrapping what (
        fail_if (leb 400 r.status_code)
          (message (str "HTTP error: " ++ (format_int r.status_code ++ (str " " ++ r.status))))))

  unfoldable pub remove_available_driver : Str → Exec Call (Unit {0})
  remove_available_driver driver_id = do
    r ← wrapping (str "failed to remove available driver") (do
      x ← delete env (str "/internal/drivers/" ++ (driver_id ++ str "/available"))
      response_or_fail env x)
    accepted_or_fail (str "failed to remove available driver") r

  unfoldable pub add_available_passenger : Str → Location → Exec Call (Unit {0})
  add_available_passenger passenger_id location = do
    wrapping (str "failed to add available passenger") (
        post_json env (str "/internal/passengers/" ++ (passenger_id ++ str "/available"))
          (some (codec.encode_location location)) (some codec.decode_status))
    pure tt

  unfoldable pub remove_available_passenger : Str → Exec Call (Unit {0})
  remove_available_passenger passenger_id = do
    r ← wrapping (str "failed to remove available passenger") (do
      x ← delete env (str "/internal/passengers/" ++ (passenger_id ++ str "/available"))
      response_or_fail env x)
    accepted_or_fail (str "failed to remove available passenger") r

  abbrev pub nearby_endpoint : Location → Float64 → Str
  nearby_endpoint location radius_km =
      str "/internal/drivers/nearby?lat="
      ++ (codec.format_float location.latitude
          ++ (str "&lng="
              ++ (codec.format_float location.longitude
                  ++ (str "&radius=" ++ codec.format_float radius_km))))

  unfoldable pub find_nearby_drivers : Location → Float64 → Exec Call (List NearbyUser)
  find_nearby_drivers location radius_km = do
    drivers ←
        wrapping (str "failed to find nearby drivers")
          (get_json env (nearby_endpoint location radius_km) (some codec.decode_nearby))
    pure (or_initial [] drivers)

  unfoldable pub get_driver_location : Str → Exec Call Location
  get_driver_location driver_id = do
    location ← wrapping (str "failed to get driver location") (
        get_json env (str "/internal/drivers/" ++ (driver_id ++ str "/location"))
          (some codec.decode_location))
    pure (or_initial zero_location location)

  unfoldable pub get_passenger_location : Str → Exec Call Location
  get_passenger_location passenger_id = do
    location ← wrapping (str "failed to get passenger location") (
        get_json env (str "/internal/passengers/" ++ (passenger_id ++ str "/location"))
          (some codec.decode_location))
    pure (or_initial zero_location location)

  -- A pointer to a variable that may have been left as it was, which is none here.
  unfoldable pub match_confirm : MatchConfirmRequest → Exec Call (Option MatchProposal)
  match_confirm req = wrapping (str "failed to send match confirmation request") (
      post_json env (str "/internal/matches/" ++ (req.id ++ str "/confirm"))
        (some (codec.encode_confirm req)) (some codec.decode_proposal))

  unfoldable pub start_ride : RideStartRequest → Exec Call (Option Ride)
  start_ride req = wrapping (str "failed to start ride") (
      post_json env (str "/internal/rides/" ++ (req.ride_id ++ str "/start"))
        (some (codec.encode_start req)) (some codec.decode_ride))

  unfoldable pub ride_arrived : RideArrivalReq → Exec Call (Option PaymentRequest)
  ride_arrived req = wrapping (str "failed to process ride arrival") (
      post_json env (str "/internal/rides/" ++ (req.ride_id ++ str "/arrive"))
        (some (codec.encode_arrival req)) (some codec.decode_payment_request))

  unfoldable pub process_payment : PaymentProccessRequest → Exec Call (Option Payment)
  process_payment req = wrapping (str "failed to process payment") (
      post_json env (str "/internal/rides/" ++ (req.ride_id ++ str "/payment"))
        (some (codec.encode_payment req)) (some codec.decode_payment))

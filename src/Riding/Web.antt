-- ===== src/Riding/Web.antt =====
-- services/rides/handler/http/rides.go.
use nebengjek.Prelude.{Str, str, str_eq, ◌++◌, [], some, none, if◌then◌else◌}
use nebengjek.Exec.{Result, ok, err, error_text, Exec, pure}
use nebengjek.Domain.Rides.{
  RideStartRequest, RideArrivalReq, PaymentProccessRequest, PaymentRequest, Payment, Ride,
}
use nebengjek.Http.Responses.{
  Reply, success_response, error_response_handler, bad_request_response, answer,
}
use nebengjek.Riding.Env.{Call, Env}
use nebengjek.Riding.Usecase

-- The ride id of the path, then the body.
abbrev pub ride_request :
    {A B : Type 0} → Str → Result A → (A → Exec Call (Reply B)) → Exec Call (Reply B)
ride_request ride_id (ok req) k =
    if str_eq ride_id [] then pure (bad_request_response (str "Ride ID is required")) else k req
ride_request ride_id (err e) k =
    if str_eq ride_id []
    then pure (bad_request_response (str "Ride ID is required"))
    else pure (bad_request_response (str "Invalid request body: " ++ error_text e))

module _ (env : Env) where
  -- `if req.DriverLocation == nil || req.PassengerLocation == nil`
  abbrev pub start_if_located : RideStartRequest → Exec Call (Reply Ride)
  start_if_located req = elim req.driver_location [
    | none ↦ pure (bad_request_response (str "Driver and passenger locations are required"))
    | some d ↦ elim req.passenger_location [
      | none ↦ pure (bad_request_response (str "Driver and passenger locations are required"))
      | some p ↦
          answer (Usecase.start_ride env req)
            (λ e. error_response_handler 500 (str "Failed to start trip: " ++ error_text e))
            (λ ride. success_response 200 (str "Trip started successfully") ride)
    ]
  ]

  unfoldable pub start_ride : Str → Result RideStartRequest → Exec Call (Reply Ride)
  start_ride ride_id body =
      ride_request ride_id body λ req. start_if_located (record req { ride_id = ride_id })

  -- The request keeps the ride id of its body.
  unfoldable pub ride_arrived : Str → Result RideArrivalReq → Exec Call (Reply PaymentRequest)
  ride_arrived ride_id body = ride_request ride_id body λ req.
      answer (Usecase.ride_arrived env req)
        (λ e. error_response_handler 500 (str "Failed to process ride arrival: " ++ error_text e))
        (λ p. success_response 200 (str "Ride arrived successfully") p)

  unfoldable pub process_payment : Str → Result PaymentProccessRequest → Exec Call (Reply Payment)
  process_payment ride_id body = ride_request ride_id body λ req.
      answer (Usecase.process_payment env (record req { ride_id = ride_id }))
        (λ e. error_response_handler 500 (str "Failed to process payment: " ++ error_text e))
        (λ p. success_response 200 (str "Payment processed successfully") p)

-- ===== src/Tests/Gateways.antt =====
-- The gateways under one configuration at concrete inputs.
use nebengjek.Prelude.{none, ◌≢◌, ◌∷◌, ℕ, refl, [], Str, str}
use nebengjek.Tests.Servers.{http_world}
use nebengjek.Http.Gateways
use nebengjek.Domain.Rides.{PaymentStatus, RideArrivalReq, PaymentProccessRequest, RideStartRequest}
use nebengjek.Exec.{message, ok, err, Result}
use nebengjek.Http.Laws.Routed.{Reaches}
use nebengjek.Http.Client.{Env}
use nebengjek.Http.Routes.{rides_routes, match_routes, location_routes, ApiKeyConfig}
use nebengjek.Domain.Matches.{MatchConfirmRequest}
use nebengjek.Http.Gateways.{Codec}
use nebengjek.Domain.Places.{zero_location}
use nebengjek.Http.Laws.Wired.{gateways-Reach}

abbrev own_keys : ApiKeyConfig
own_keys = record {
  user_service = [];
  match_service = 1 ∷ [];
  rides_service = 2 ∷ [];
  location_service = [];
}

abbrev keyed : Str → Env
keyed key = record http_world { api_key = key }

abbrev unreadable {ℓ} : {A : Type ℓ} → Str → Result A
unreadable s = err (message (str "json"))

abbrev codec : Codec
codec = record {
  encode_location = λ l. ok [];
  encode_confirm = λ c. ok [];
  encode_start = λ s. ok [];
  encode_arrival = λ a. ok [];
  encode_payment = λ p. ok [];
  decode_status = unreadable;
  decode_nearby = unreadable;
  decode_location = unreadable;
  decode_proposal = unreadable;
  decode_ride = unreadable;
  decode_payment_request = unreadable;
  decode_payment = unreadable;
  format_float = λ x. str "0.000000";
}

abbrev confirm : MatchConfirmRequest
confirm = record { id = 7 ∷ []; user_id = []; role = []; status = str "ACCEPTED" }

abbrev start : RideStartRequest
start = record { ride_id = 7 ∷ []; driver_location = none; passenger_location = none }

abbrev arrival : RideArrivalReq
arrival = record { ride_id = 7 ∷ []; adjustment_factor = 0 }

abbrev payment : PaymentProccessRequest
payment = record { ride_id = 7 ∷ []; total_cost = 100; status = PaymentStatus.accepted }

given-ne : (c : ℕ) → ◌≢◌ {A = Str} (c ∷ []) []
given-ne c e = cc

gateways-Reach_example :
    Reaches
      (keyed own_keys.match_service)
      own_keys
      location_routes
      (str "AddAvailableDriver")
      (Gateways.add_available_driver (keyed own_keys.match_service) codec (7 ∷ []) zero_location)
    × Reaches
        (keyed own_keys.match_service)
        own_keys
        location_routes
        (str "RemoveAvailableDriver")
        (Gateways.remove_available_driver (keyed own_keys.match_service) codec (7 ∷ []))
    × Reaches
        (keyed own_keys.match_service)
        own_keys
        location_routes
        (str "GetDriverLocation")
        (Gateways.get_driver_location (keyed own_keys.match_service) codec (7 ∷ []))
    × Reaches
        (keyed own_keys.match_service)
        own_keys
        location_routes
        (str "FindNearbyDrivers")
        (Gateways.find_nearby_drivers (keyed own_keys.match_service) codec zero_location 0)
    × Reaches
        (keyed own_keys.match_service)
        own_keys
        location_routes
        (str "AddAvailablePassenger")
        (Gateways.add_available_passenger
          (keyed own_keys.match_service)
          codec
          (7 ∷ [])
          zero_location)
    × Reaches
        (keyed own_keys.match_service)
        own_keys
        location_routes
        (str "RemoveAvailablePassenger")
        (Gateways.remove_available_passenger (keyed own_keys.match_service) codec (7 ∷ []))
    × Reaches
        (keyed own_keys.match_service)
        own_keys
        location_routes
        (str "GetPassengerLocation")
        (Gateways.get_passenger_location (keyed own_keys.match_service) codec (7 ∷ []))
    × Reaches
        (keyed own_keys.match_service)
        own_keys
        match_routes
        (str "ConfirmMatch")
        (Gateways.match_confirm (keyed own_keys.match_service) codec confirm)
    × Reaches
        (keyed own_keys.rides_service)
        own_keys
        rides_routes
        (str "StartRide")
        (Gateways.start_ride (keyed own_keys.rides_service) codec start)
    × Reaches
        (keyed own_keys.rides_service)
        own_keys
        rides_routes
        (str "RideArrived")
        (Gateways.ride_arrived (keyed own_keys.rides_service) codec arrival)
    × Reaches
        (keyed own_keys.rides_service)
        own_keys
        rides_routes
        (str "ProcessPayment")
        (Gateways.process_payment (keyed own_keys.rides_service) codec payment)
gateways-Reach_example =
    gateways-Reach own_keys (keyed (1 ∷ [])) (keyed (1 ∷ [])) (keyed (2 ∷ [])) codec refl refl refl
      (given-ne 1) (given-ne 2) (7 ∷ []) zero_location 0 confirm start arrival payment refl refl
      refl refl refl

-- ===== src/Http/Laws/Reached.antt =====
-- The requests of each gateway operation reach the handler that it is meant for:
-- services/match/gateway/http.go, services/users/gateway/http, and the routes of the services.
use nebengjek.Prelude.{true, inl, ◌++◌, inr, ◌∷◌, ◌≢◌, some, ◌≡◌, refl, [], Str, str, str_eq}
use nebengjek.Http.Client.{post_json, get_json, Env}
use nebengjek.Middleware.Keys
use nebengjek.Http.Gateways
use nebengjek.Http.Gateways.{or_initial, Codec}
use nebengjek.Http.Routes.{
  api_key_handler, rides_routes, match_routes, location_routes, api_keys, ApiKeyConfig,
}
use nebengjek.Http.Laws.Routed.{reaches, Reaches, route_named, is_segment}
use nebengjek.Domain.Rides.{PaymentProccessRequest, RideStartRequest, RideArrivalReq}
use nebengjek.Domain.Places.{zero_location, Float64, Location}
use nebengjek.Domain.Matches.{MatchConfirmRequest}
use nebengjek.Exec.Emits.{Emits-silent, Emits-wrapping, Emits-bind}
use nebengjek.Http.Laws.Sent.{get_json-Sends, post_json-Sends, removal-Sends}
use nebengjek.Exec.{pure, wrapping}

module _ (env : Env) (codec : Codec) (config : ApiKeyConfig)
    (own : Keys.key_of_service (str "match-service") (api_keys config) ≡ some env.api_key)
    (ne : env.api_key ≢ []) where
  pub add_available_driver-Reaches :
      (id : Str) (l : Location)
      → is_segment id ≡ true
      → Reaches env config location_routes
          (str "AddAvailableDriver")
          (Gateways.add_available_driver env codec id l)
  unfolding Gateways.add_available_driver location_routes route_named str_eq str
  add_available_driver-Reaches id l plain =
      reaches env config (str "match-service") own ne location_routes
        (record {
          method = str "POST";
          path = str "/internal/drivers/:id/available";
          guard = api_key_handler (str "match-service" ∷ []);
          handler = str "AddAvailableDriver";
        })
        (str "/internal/drivers/" ++ (id ++ str "/available")) _ refl refl
        (inl
          (str "/internal/drivers/", str "id", str "/available", id, refl, refl, refl, refl, plain))
        (Emits-bind _ _ (wrapping _ (post_json env _ _ (some codec.decode_status))) _
          (Emits-wrapping _ _ _ _ (post_json-Sends env _ _ _))
          λ x. Emits-silent _ _ (pure tt) (λ t. refl))

  pub remove_available_driver-Reaches :
      (id : Str)
      → is_segment id ≡ true
      → Reaches env config location_routes
          (str "RemoveAvailableDriver")
          (Gateways.remove_available_driver env codec id)
  unfolding Gateways.remove_available_driver location_routes route_named str_eq str
  remove_available_driver-Reaches id plain =
      reaches env config (str "match-service") own ne location_routes
        (record {
          method = str "DELETE";
          path = str "/internal/drivers/:id/available";
          guard = api_key_handler (str "match-service" ∷ []);
          handler = str "RemoveAvailableDriver";
        })
        (str "/internal/drivers/" ++ (id ++ str "/available")) _ refl refl
        (inl
          (str "/internal/drivers/", str "id", str "/available", id, refl, refl, refl, refl, plain))
        (removal-Sends env _ _ codec)

  pub get_driver_location-Reaches :
      (id : Str)
      → is_segment id ≡ true
      → Reaches env config location_routes
          (str "GetDriverLocation")
          (Gateways.get_driver_location env codec id)
  unfolding Gateways.get_driver_location location_routes route_named str_eq str
  get_driver_location-Reaches id plain =
      reaches env config (str "match-service") own ne location_routes
        (record {
          method = str "GET";
          path = str "/internal/drivers/:id/location";
          guard = api_key_handler (str "match-service" ∷ []);
          handler = str "GetDriverLocation";
        })
        (str "/internal/drivers/" ++ (id ++ str "/location")) _ refl refl
        (inl
          (str "/internal/drivers/", str "id", str "/location", id, refl, refl, refl, refl, plain))
        (Emits-bind _ _ (wrapping _ (get_json env _ (some codec.decode_location))) _
          (Emits-wrapping _ _ _ _ (get_json-Sends env _ _))
          λ x. Emits-silent _ _ (pure (or_initial zero_location x)) (λ t. refl))

  pub find_nearby_drivers-Reaches :
      (l : Location) (radius : Float64)
      → Reaches env config location_routes
          (str "FindNearbyDrivers")
          (Gateways.find_nearby_drivers env codec l radius)
  unfolding Gateways.find_nearby_drivers location_routes route_named str_eq str
  find_nearby_drivers-Reaches l radius =
      reaches env config (str "match-service") own ne location_routes
        (record {
          method = str "GET";
          path = str "/internal/drivers/nearby";
          guard = api_key_handler (str "match-service" ∷ []);
          handler = str "FindNearbyDrivers";
        })
        (Gateways.nearby_endpoint env codec l radius) _ refl refl (inr (_, refl))
        (Emits-bind _ _ (wrapping _ (get_json env _ (some codec.decode_nearby))) _
          (Emits-wrapping _ _ _ _ (get_json-Sends env _ _))
          λ x. Emits-silent _ _ (pure (or_initial [] x)) (λ t. refl))

  pub add_available_passenger-Reaches :
      (id : Str) (l : Location)
      → is_segment id ≡ true
      → Reaches env config location_routes
          (str "AddAvailablePassenger")
          (Gateways.add_available_passenger env codec id l)
  unfolding Gateways.add_available_passenger location_routes route_named str_eq str
  add_available_passenger-Reaches id l plain =
      reaches env config (str "match-service") own ne location_routes
        (record {
          method = str "POST";
          path = str "/internal/passengers/:id/available";
          guard = api_key_handler (str "match-service" ∷ []);
          handler = str "AddAvailablePassenger";
        })
        (str "/internal/passengers/" ++ (id ++ str "/available")) _ refl refl
        (inl (
          str "/internal/passengers/",
          str "id",
          str "/available",
          id,
          refl,
          refl,
          refl,
          refl,
          plain,
        ))
        (Emits-bind _ _ (wrapping _ (post_json env _ _ (some codec.decode_status))) _
          (Emits-wrapping _ _ _ _ (post_json-Sends env _ _ _))
          λ x. Emits-silent _ _ (pure tt) (λ t. refl))

  pub remove_available_passenger-Reaches :
      (id : Str)
      → is_segment id ≡ true
      → Reaches env config location_routes
          (str "RemoveAvailablePassenger")
          (Gateways.remove_available_passenger env codec id)
  unfolding Gateways.remove_available_passenger location_routes route_named str_eq str
  remove_available_passenger-Reaches id plain =
      reaches env config (str "match-service") own ne location_routes
        (record {
          method = str "DELETE";
          path = str "/internal/passengers/:id/available";
          guard = api_key_handler (str "match-service" ∷ []);
          handler = str "RemoveAvailablePassenger";
        })
        (str "/internal/passengers/" ++ (id ++ str "/available")) _ refl refl
        (inl (
          str "/internal/passengers/",
          str "id",
          str "/available",
          id,
          refl,
          refl,
          refl,
          refl,
          plain,
        ))
        (removal-Sends env _ _ codec)

  pub get_passenger_location-Reaches :
      (id : Str)
      → is_segment id ≡ true
      → Reaches env config location_routes
          (str "GetPassengerLocation")
          (Gateways.get_passenger_location env codec id)
  unfolding Gateways.get_passenger_location location_routes route_named str_eq str
  get_passenger_location-Reaches id plain =
      reaches env config (str "match-service") own ne location_routes
        (record {
          method = str "GET";
          path = str "/internal/passengers/:id/location";
          guard = api_key_handler (str "match-service" ∷ []);
          handler = str "GetPassengerLocation";
        })
        (str "/internal/passengers/" ++ (id ++ str "/location")) _ refl refl
        (inl (
          str "/internal/passengers/",
          str "id",
          str "/location",
          id,
          refl,
          refl,
          refl,
          refl,
          plain,
        ))
        (Emits-bind _ _ (wrapping _ (get_json env _ (some codec.decode_location))) _
          (Emits-wrapping _ _ _ _ (get_json-Sends env _ _))
          λ x. Emits-silent _ _ (pure (or_initial zero_location x)) (λ t. refl))

  pub match_confirm-Reaches :
      (c : MatchConfirmRequest)
      → is_segment c.id ≡ true
      → Reaches env config match_routes (str "ConfirmMatch") (Gateways.match_confirm env codec c)
  unfolding Gateways.match_confirm match_routes route_named str_eq str
  match_confirm-Reaches c plain =
      reaches env config (str "match-service") own ne match_routes
        (record {
          method = str "POST";
          path = str "/internal/matches/:matchID/confirm";
          guard = api_key_handler (str "match-service" ∷ []);
          handler = str "ConfirmMatch";
        })
        (str "/internal/matches/" ++ (c.id ++ str "/confirm")) _ refl refl
        (inl (
          str "/internal/matches/",
          str "matchID",
          str "/confirm",
          c.id,
          refl,
          refl,
          refl,
          refl,
          plain,
        ))
        (Emits-wrapping _ _ _ _ (post_json-Sends env _ _ _))

module _ (env : Env) (codec : Codec) (config : ApiKeyConfig)
    (own : Keys.key_of_service (str "rides-service") (api_keys config) ≡ some env.api_key)
    (ne : env.api_key ≢ []) where
  pub start_ride-Reaches :
      (s : RideStartRequest)
      → is_segment s.ride_id ≡ true
      → Reaches env config rides_routes (str "StartRide") (Gateways.start_ride env codec s)
  unfolding Gateways.start_ride rides_routes route_named str_eq str
  start_ride-Reaches s plain =
      reaches env config (str "rides-service") own ne rides_routes
        (record {
          method = str "POST";
          path = str "/internal/rides/:rideID/start";
          guard = api_key_handler (str "rides-service" ∷ []);
          handler = str "StartRide";
        })
        (str "/internal/rides/" ++ (s.ride_id ++ str "/start")) _ refl refl
        (inl (
          str "/internal/rides/",
          str "rideID",
          str "/start",
          s.ride_id,
          refl,
          refl,
          refl,
          refl,
          plain,
        ))
        (Emits-wrapping _ _ _ _ (post_json-Sends env _ _ _))

  pub ride_arrived-Reaches :
      (a : RideArrivalReq)
      → is_segment a.ride_id ≡ true
      → Reaches env config rides_routes (str "RideArrived") (Gateways.ride_arrived env codec a)
  unfolding Gateways.ride_arrived rides_routes route_named str_eq str
  ride_arrived-Reaches a plain =
      reaches env config (str "rides-service") own ne rides_routes
        (record {
          method = str "POST";
          path = str "/internal/rides/:rideID/arrive";
          guard = api_key_handler (str "rides-service" ∷ []);
          handler = str "RideArrived";
        })
        (str "/internal/rides/" ++ (a.ride_id ++ str "/arrive")) _ refl refl
        (inl (
          str "/internal/rides/",
          str "rideID",
          str "/arrive",
          a.ride_id,
          refl,
          refl,
          refl,
          refl,
          plain,
        ))
        (Emits-wrapping _ _ _ _ (post_json-Sends env _ _ _))

  pub process_payment-Reaches :
      (p : PaymentProccessRequest)
      → is_segment p.ride_id ≡ true
      → Reaches env config rides_routes
          (str "ProcessPayment")
          (Gateways.process_payment env codec p)
  unfolding Gateways.process_payment rides_routes route_named str_eq str
  process_payment-Reaches p plain =
      reaches env config (str "rides-service") own ne rides_routes
        (record {
          method = str "POST";
          path = str "/internal/rides/:rideID/payment";
          guard = api_key_handler (str "rides-service" ∷ []);
          handler = str "ProcessPayment";
        })
        (str "/internal/rides/" ++ (p.ride_id ++ str "/payment")) _ refl refl
        (inl (
          str "/internal/rides/",
          str "rideID",
          str "/payment",
          p.ride_id,
          refl,
          refl,
          refl,
          refl,
          plain,
        ))
        (Emits-wrapping _ _ _ _ (post_json-Sends env _ _ _))

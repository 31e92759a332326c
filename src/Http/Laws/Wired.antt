-- ===== src/Http/Laws/Wired.antt =====
-- The gateways and the routes of all services together, under one configuration: cmd/location/main.go,
-- cmd/match/main.go, cmd/rides/main.go and cmd/users/main.go.
use nebengjek.Prelude.{true, subst, sym, ap, ◌≢◌, some, ◌≡◌, [], Str, str, str_eq}
use nebengjek.Http.Client.{Env}
use nebengjek.Middleware.Keys
use nebengjek.Http.Gateways
use nebengjek.Http.Gateways.{or_initial, Codec}
use nebengjek.Http.Routes.{
  ride_client_key, match_client_key, location_client_key, rides_routes, match_routes,
  location_routes, api_keys, ApiKeyConfig,
}
use nebengjek.Http.Laws.Routed.{Reaches, is_segment}
use nebengjek.Domain.Rides.{PaymentProccessRequest, RideStartRequest, RideArrivalReq}
use nebengjek.Domain.Places.{Float64, Location}
use nebengjek.Domain.Matches.{MatchConfirmRequest}
use nebengjek.Http.Laws.Reached.{
  add_available_driver-Reaches, remove_available_driver-Reaches, get_driver_location-Reaches,
  find_nearby_drivers-Reaches, add_available_passenger-Reaches, remove_available_passenger-Reaches,
  get_passenger_location-Reaches, match_confirm-Reaches, start_ride-Reaches, ride_arrived-Reaches,
  process_payment-Reaches,
}

-- Whatever the services answer, each request of the gateways of the match and users services goes to
-- the route of the handler that it is for, with the method of that route and with a key that the
-- check before it lets pass. This is for clients and servers with one configuration, in which the
-- keys of the match and rides services are not empty, and for ids that are one segment of a path: an
-- id that is empty, or with a slash, goes elsewhere.
pub gateways-Reach :
    (config : ApiKeyConfig) (location_env match_env ride_env : Env) (codec : Codec)
    → location_env.api_key ≡ location_client_key config
    → match_env.api_key ≡ match_client_key config
    → ride_env.api_key ≡ ride_client_key config
    → config.match_service ≢ []
    → config.rides_service ≢ []
    → (id : Str) (l : Location) (radius : Float64) (c : MatchConfirmRequest) (s : RideStartRequest)
      (a : RideArrivalReq) (p : PaymentProccessRequest)
    → is_segment id ≡ true
    → is_segment c.id ≡ true
    → is_segment s.ride_id ≡ true
    → is_segment a.ride_id ≡ true
    → is_segment p.ride_id ≡ true
    → Reaches location_env config location_routes
        (str "AddAvailableDriver")
        (Gateways.add_available_driver location_env codec id l)
      × Reaches location_env config location_routes
          (str "RemoveAvailableDriver")
          (Gateways.remove_available_driver location_env codec id)
      × Reaches location_env config location_routes
          (str "GetDriverLocation")
          (Gateways.get_driver_location location_env codec id)
      × Reaches location_env config location_routes
          (str "FindNearbyDrivers")
          (Gateways.find_nearby_drivers location_env codec l radius)
      × Reaches location_env config location_routes
          (str "AddAvailablePassenger")
          (Gateways.add_available_passenger location_env codec id l)
      × Reaches location_env config location_routes
          (str "RemoveAvailablePassenger")
          (Gateways.remove_available_passenger location_env codec id)
      × Reaches location_env config location_routes
          (str "GetPassengerLocation")
          (Gateways.get_passenger_location location_env codec id)
      × Reaches match_env config match_routes
          (str "ConfirmMatch")
          (Gateways.match_confirm match_env codec c)
      × Reaches ride_env config rides_routes
          (str "StartRide")
          (Gateways.start_ride ride_env codec s)
      × Reaches ride_env config rides_routes
          (str "RideArrived")
          (Gateways.ride_arrived ride_env codec a)
      × Reaches ride_env config rides_routes
          (str "ProcessPayment")
          (Gateways.process_payment ride_env codec p)
unfolding api_keys Keys.key_of_service str_eq str
gateways-Reach config location_env match_env ride_env codec e e' e'' n n' id l radius c s a p k kc
      ks ka kp =
    let own = ap some (sym e) in
    let own' = ap some (sym e') in
    let own'' = ap some (sym e'') in
    let ne : location_env.api_key ≢ [] = subst (λ k. k ≢ []) (sym e) n in
    let ne' : match_env.api_key ≢ [] = subst (λ k. k ≢ []) (sym e') n in
    let ne'' : ride_env.api_key ≢ [] = subst (λ k. k ≢ []) (sym e'') n' in
    (
      add_available_driver-Reaches location_env codec config own ne id l k,
      remove_available_driver-Reaches location_env codec config own ne id k,
      get_driver_location-Reaches location_env codec config own ne id k,
      find_nearby_drivers-Reaches location_env codec config own ne l radius,
      add_available_passenger-Reaches location_env codec config own ne id l k,
      remove_available_passenger-Reaches location_env codec config own ne id k,
      get_passenger_location-Reaches location_env codec config own ne id k,
      match_confirm-Reaches match_env codec config own' ne' c kc,
      start_ride-Reaches ride_env codec config own'' ne'' s ks,
      ride_arrived-Reaches ride_env codec config own'' ne'' a ka,
      process_payment-Reaches ride_env codec config own'' ne'' p kp,
    )

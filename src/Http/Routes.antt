-- ===== src/Http/Routes.antt =====
-- Which requests reach which handler: RegisterRoutes in services/location/handler/routes.go,
-- services/match/handler/routes.go, services/rides/handler/routes.go and
-- services/users/handler/routes.go, with the keys that cmd/location/main.go, cmd/match/main.go,
-- cmd/rides/main.go and cmd/users/main.go configure. A handler is known by its name.
use nebengjek.Prelude.{Str, str, ◌++◌, List, [], ◌∷◌}

-- What stands before the handlers of a group.
pub data Guard : Type 0 where
  unguarded : Guard
  jwt : Guard
  web_socket_jwt : Guard
  api_key_handler : List Str → Guard

pub record Route : Type 0 where
  pub method : Str
  pub path : Str
  pub guard : Guard
  pub handler : Str

-- `e.Group("/internal", Middleware.APIKeyHandler(service))`
abbrev internal : Str → Str → Str → Str → Route
internal service method path handler = record {
  method = method;
  path = str "/internal" ++ path;
  guard = api_key_handler (service ∷ []);
  handler = handler;
}

unfoldable pub location_routes : List Route
location_routes =
    internal (str "match-service") (str "POST") (str "/drivers/:id/available")
      (str "AddAvailableDriver")
    ∷ internal (str "match-service") (str "DELETE") (str "/drivers/:id/available")
        (str "RemoveAvailableDriver")
    ∷ internal (str "match-service") (str "GET") (str "/drivers/:id/location")
        (str "GetDriverLocation")
    ∷ internal (str "match-service") (str "GET") (str "/drivers/nearby") (str "FindNearbyDrivers")
    ∷ internal (str "match-service") (str "POST") (str "/passengers/:id/available")
        (str "AddAvailablePassenger")
    ∷ internal (str "match-service") (str "DELETE") (str "/passengers/:id/available")
        (str "RemoveAvailablePassenger")
    ∷ internal (str "match-service") (str "GET") (str "/passengers/:id/location")
        (str "GetPassengerLocation")
    ∷ []

unfoldable pub match_routes : List Route
match_routes =
    internal (str "match-service") (str "POST") (str "/matches/:matchID/confirm")
      (str "ConfirmMatch")
    ∷ []

unfoldable pub rides_routes : List Route
rides_routes =
    internal (str "rides-service") (str "POST") (str "/rides/:rideID/start") (str "StartRide")
    ∷ internal (str "rides-service") (str "POST") (str "/rides/:rideID/arrive") (str "RideArrived")
    ∷ internal (str "rides-service") (str "POST") (str "/rides/:rideID/payment")
        (str "ProcessPayment")
    ∷ []

abbrev route : Guard → Str → Str → Str → Route
route guard method path handler = record {
  method = method;
  path = path;
  guard = guard;
  handler = handler;
}

unfoldable pub users_routes : List Route
users_routes =
    route unguarded (str "POST") (str "/auth/otp/generate") (str "GenerateOTP")
    ∷ route unguarded (str "POST") (str "/auth/otp/verify") (str "VerifyOTP")
    ∷ route jwt (str "POST") (str "/users") (str "CreateUser")
    ∷ route jwt (str "GET") (str "/users/:id") (str "GetUser")
    ∷ route jwt (str "POST") (str "/drivers/register") (str "RegisterDriver")
    ∷ route web_socket_jwt (str "GET") (str "/ws") (str "HandleWebSocket")
    ∷ []

-- `models.APIKeyConfig`
pub record ApiKeyConfig : Type 0 where
  pub user_service : Str
  pub match_service : Str
  pub rides_service : Str
  pub location_service : Str

-- The map `APIKeys`, which is the same in all four programs.
unfoldable pub api_keys : ApiKeyConfig → List (Str × Str)
api_keys config =
    (str "user-service", config.user_service)
    ∷ (str "match-service", config.match_service)
    ∷ (str "rides-service", config.rides_service)
    ∷ (str "location-service", config.location_service)
    ∷ []

-- The keys of the clients: NewHTTPGateway of the match service, NewMatchClient and NewRideClient of
-- the users service.
abbrev pub location_client_key : ApiKeyConfig → Str
location_client_key config = config.match_service

abbrev pub match_client_key : ApiKeyConfig → Str
match_client_key config = config.match_service

abbrev pub ride_client_key : ApiKeyConfig → Str
ride_client_key config = config.rides_service

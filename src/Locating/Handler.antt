-- ===== src/Locating/Handler.antt =====
-- services/location/handler/http/location.go.
use nebengjek.Prelude.{Str, str, str_eq, List, [], ◌∷◌, ◌||◌, if◌then◌else◌}
use nebengjek.Exec.{Result, ok, err, Exec, pure}
use nebengjek.Domain.Places.{Location, Float64}
use nebengjek.Domain.Matches.{NearbyUser}
use nebengjek.Http.Responses.{
  Reply, success_response, error_response_handler, bad_request_response, not_found_response, answer,
}
use nebengjek.Locating.Env.{Call, Env}
use nebengjek.Locating.Repo

-- `map[string]string{"status": "success"}`
abbrev pub Status : Type 0
Status = List (Str × Str)

abbrev pub done : Status
done = (str "status", str "success") ∷ []

-- `if id == "" { return utils.BadRequestResponse(c, message) }`
abbrev pub unless_empty : {A : Type 0} → Str → Str → Exec Call (Reply A) → Exec Call (Reply A)
unless_empty id message k = if str_eq id [] then pure (bad_request_response message) else k

-- `if err := c.Bind(&req); err != nil { ... }`
abbrev pub bound :
    {A : Type 0} → Result Location → (Location → Exec Call (Reply A)) → Exec Call (Reply A)
bound (ok l) k = k l
bound (err e) k = pure (bad_request_response (str "invalid request body"))

module _ (env : Env) where
  unfoldable pub add_available_driver : Str → Result Location → Exec Call (Reply Status)
  add_available_driver driver_id body = unless_empty driver_id (str "driver_id is required") (
      bound body λ location.
        answer (Repo.add_available_driver env driver_id location)
          (λ e. error_response_handler 500 (str "failed to add driver"))
          (λ u. success_response 200 (str "Driver added successfully") done))

  unfoldable pub remove_available_driver : Str → Exec Call (Reply Status)
  remove_available_driver driver_id = unless_empty driver_id (str "driver_id is required") (
      answer (Repo.remove_available_driver env driver_id)
        (λ e. error_response_handler 500 (str "failed to remove driver"))
        (λ u. success_response 200 (str "Driver removed successfully") done))

  unfoldable pub add_available_passenger : Str → Result Location → Exec Call (Reply Status)
  add_available_passenger passenger_id body =
      unless_empty passenger_id (str "passenger_id is required") (
        bound body λ location.
          answer (Repo.add_available_passenger env passenger_id location)
            (λ e. error_response_handler 500 (str "failed to add passenger"))
            (λ u. success_response 200 (str "Passenger added successfully") done))

  unfoldable pub remove_available_passenger : Str → Exec Call (Reply Status)
  remove_available_passenger passenger_id =
      unless_empty passenger_id (str "passenger_id is required") (
        answer (Repo.remove_available_passenger env passenger_id)
          (λ e. error_response_handler 500 (str "failed to remove passenger"))
          (λ u. success_response 200 (str "Passenger removed successfully") done))

  -- `x, err := strconv.ParseFloat(s, 64); if err != nil { ... }`
  abbrev pub parsed :
      {A : Type 0} → Str → Str → (Float64 → Exec Call (Reply A)) → Exec Call (Reply A)
  parsed s message k = elim (env.parse_float s) [
    | ok x ↦ k x
    | err e ↦ pure (bad_request_response message)
  ]

  unfoldable pub find_nearby_drivers : Str → Str → Str → Exec Call (Reply (List NearbyUser))
  find_nearby_drivers lat_str lng_str radius_str =
      if str_eq lat_str [] || (str_eq lng_str [] || str_eq radius_str [])
      then pure (bad_request_response (str "lat, lng, and radius are required"))
      else parsed lat_str (str "invalid latitude") λ lat.
        parsed lng_str (str "invalid longitude") λ lng.
          parsed radius_str (str "invalid radius") λ radius.
            answer
              (Repo.find_nearby_drivers env
                (record { latitude = lat; longitude = lng; timestamp = 0 }) radius)
              (λ e. error_response_handler 500 (str "failed to find drivers"))
              (λ drivers. success_response 200 (str "Nearby drivers found") drivers)

  unfoldable pub get_driver_location : Str → Exec Call (Reply Location)
  get_driver_location driver_id = unless_empty driver_id (str "driver_id is required") (
      answer (Repo.get_driver_location env driver_id)
        (λ e. not_found_response (str "driver location not found"))
        (λ l. success_response 200 (str "Driver location retrieved") l))

  unfoldable pub get_passenger_location : Str → Exec Call (Reply Location)
  get_passenger_location passenger_id = unless_empty passenger_id (str "passenger_id is required") (
      answer (Repo.get_passenger_location env passenger_id)
        (λ e. not_found_response (str "passenger location not found"))
        (λ l. success_response 200 (str "Passenger location retrieved") l))

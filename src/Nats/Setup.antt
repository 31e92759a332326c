-- ===== src/Nats/Setup.antt =====
-- The creation of the default streams and consumers: initializeDefaultStreams of
-- internal/pkg/nats/client.go, and CreateDefaultConsumersForService of jetstream_helpers.go.
use nebengjek.Prelude.{Str, str, str_eq, Bool, false, ◌||◌, ◌++◌, List, [], ◌∷◌, if◌then◌else◌}
use nebengjek.Exec.{wrap, ok, err, Ok}
use nebengjek.Nats.Client.{Client, create_or_update_stream, create_consumer}
use nebengjek.Nats.Defaults.{
  default_stream_configs, user_beacon_users, user_beacon_match, user_finder_users,
  user_finder_match, match_found_users, match_accepted_users, match_accepted_rides,
  match_rejected_users, ride_pickup_users, ride_pickup_match, ride_started_users,
  ride_completed_users, ride_completed_match, location_update_location, location_aggregate_rides,
  StreamConfig, ConsumerConfig,
}

abbrev one_of : Str → List Str → Bool
one_of s [] = false
one_of s (x ∷ xs) = str_eq s x || one_of s xs

unfoldable pub get_stream_for_subject : Str → Str
get_stream_for_subject subject =
    if one_of subject (str "user.beacon" ∷ str "user.finder" ∷ [])
    then str "USER_STREAM"
    else if one_of subject (str "match.found" ∷ str "match.rejected" ∷ str "match.accepted" ∷ [])
    then str "MATCH_STREAM"
    else if one_of subject
        (str "ride.pickup" ∷ str "ride.started" ∷ str "ride.arrived" ∷ str "ride.completed" ∷ [])
    then str "RIDE_STREAM"
    else if one_of subject (str "location.update" ∷ str "location.aggregate" ∷ [])
    then str "LOCATION_STREAM"
    else str ""

-- A service with another name has no consumers.
unfoldable pub relevant_configs : Str → List ConsumerConfig
relevant_configs service_name =
    if str_eq service_name (str "users")
    then user_beacon_users ∷ user_finder_users ∷ match_found_users ∷ match_accepted_users
      ∷ match_rejected_users ∷ ride_pickup_users ∷ ride_started_users ∷ ride_completed_users ∷ []
    else if str_eq service_name (str "match")
    then user_beacon_match ∷ user_finder_match ∷ ride_pickup_match ∷ ride_completed_match ∷ []
    else if str_eq service_name (str "rides")
    then match_accepted_rides ∷ location_aggregate_rides ∷ []
    else if str_eq service_name (str "location")
    then location_update_location ∷ []
    else []

-- What the server answers is given by the name of the stream, and of the consumer.
unfoldable pub create_streams : (Str → Ok) → List StreamConfig → Client → Ok × Client
unfolding create_or_update_stream
create_streams reply [] c = (ok tt, c)
create_streams reply (s ∷ ss) c =
    let made = create_or_update_stream (reply s.name) s.name c in
    let rest = create_streams reply ss made.1 in
    elim made.0 [
      | ok u ↦ rest
      | err e ↦ (err (wrap (str "failed to create stream " ++ s.name) e), made.1)
    ]

unfoldable pub initialize_default_streams : (Str → Ok) → Client → Ok × Client
unfolding create_streams default_stream_configs
initialize_default_streams reply c = create_streams reply default_stream_configs c

unfoldable pub create_consumers : (Str → Str → Ok) → List ConsumerConfig → Client → Ok × Client
unfolding create_consumer
create_consumers reply [] c = (ok tt, c)
create_consumers reply (k ∷ ks) c =
    let made =
      create_consumer (reply k.stream_name k.consumer_name) k.stream_name k.consumer_name c in
    let rest = create_consumers reply ks made.1 in
    elim made.0 [ ok u ↦ rest | err e ↦ (err e, made.1) ]

unfoldable pub create_default_consumers_for_service : (Str → Str → Ok) → Str → Client → Ok × Client
unfolding create_consumers relevant_configs
create_default_consumers_for_service reply service_name c =
    create_consumers reply (relevant_configs service_name) c

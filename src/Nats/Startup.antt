-- ===== src/Nats/Startup.antt =====
-- How each service starts to consume: InitNATSConsumers of services/match/handler/nats/nats.go,
-- services/rides/handler/nats/nats.go and services/location/handler/nats.go, and InitConsumers of
-- services/users/handler/nats. What the server answers and the handlers are arguments.
use nebengjek.Prelude.{Str, str, ◌++◌}
use nebengjek.Exec.{ok, err, Ok}
use nebengjek.Nats.Client.{Client, create_consumer, recreate_consumer}
use nebengjek.Nats.Defaults.{
  ride_completed_match, match_rejected_users, ride_completed_users, ride_pickup_match,
  user_finder_match, ride_started_users, match_accepted_users, location_aggregate_rides,
  match_found_users, location_update_location, ride_pickup_users, user_beacon_match,
  match_accepted_rides, ConsumerConfig,
}
use nebengjek.Nats.Session.{Session, wrapped, consume_messages}

abbrev pub Step : Type 0 → Type 0
Step H = Session H → Ok × Session H

module _ {H : Type 0} where
  abbrev pub go_on : Ok × Session H → Step H → Ok × Session H
  go_on (ok u, s) next = next s
  go_on (err e, s) next = (err e, s)

  -- `if err := first; err != nil { return err }`
  unfoldable pub before : Step H → Step H → Step H
  before first next s = go_on (first s) next

  abbrev pub on_client : (Client → Ok × Client) → Step H
  on_client f s = let (r, c) = f s.client in (r, record s { client = c })

  -- `return fmt.Errorf("s: %w", err)`
  abbrev pub failing_as : Str → Step H → Step H
  failing_as t step s = let (r, s') = step s in (wrapped t r, s')

  abbrev pub finished : Step H
  finished s = (ok tt, s)

  -- InitConsumers of the users service, from the two parts.
  unfoldable pub init_consumers : Step H → Step H → Step H
  init_consumers match_consumers ride_consumers =
      before (failing_as (str "failed to initialize match consumers") match_consumers)
        (before (failing_as (str "failed to initialize ride consumers") ride_consumers) finished)

module _ {H : Type 0} (create_reply : Str → Str → Ok) where
  unfoldable pub created : Str → ConsumerConfig → Step H
  unfolding create_consumer
  created what k = failing_as (str "failed to create " ++ (what ++ str " consumer")) (
      on_client (
        create_consumer (create_reply k.stream_name k.consumer_name) k.stream_name k.consumer_name))

  unfoldable pub recreated : Str → ConsumerConfig → Step H
  unfolding recreate_consumer
  recreated what k = failing_as (str "failed to recreate " ++ (what ++ str " consumer")) (
      on_client (
        recreate_consumer (create_reply k.stream_name k.consumer_name) k.stream_name
          k.consumer_name))

  module _ (consume_reply : Str → Ok) where
    unfoldable pub consumed : Str → Str → Str → H → Step H
    unfolding consume_messages
    consumed what stream consumer handler =
        failing_as (str "failed to start consuming " ++ (what ++ str " events"))
          (consume_messages consume_reply stream consumer handler)

    -- InitNATSConsumers of the match service.
    unfoldable pub init_match :
        (handle_beacon_event_js handle_finder_event_js handle_ride_pickup_js
          handle_ride_completed_js : H)
        → Step H
    init_match handle_beacon_event_js handle_finder_event_js handle_ride_pickup_js
          handle_ride_completed_js =
        before (created (str "user beacon") user_beacon_match) (
          before
            (consumed (str "beacon") (str "USER_STREAM") (str "user_beacon_match")
              handle_beacon_event_js)
            (before (created (str "user finder") user_finder_match) (
              before
                (consumed (str "finder") (str "USER_STREAM") (str "user_finder_match")
                  handle_finder_event_js)
                (before (recreated (str "ride pickup") ride_pickup_match) (
                  before
                    (consumed (str "ride pickup") (str "RIDE_STREAM") (str "ride_pickup_match")
                      handle_ride_pickup_js)
                    (before (recreated (str "ride completed") ride_completed_match) (
                      before
                        (consumed (str "ride completed") (str "RIDE_STREAM")
                          (str "ride_completed_match") handle_ride_completed_js)
                        finished)))))))

    -- InitNATSConsumers of the rides service.
    unfoldable pub init_rides : (handle_match_accepted_js handle_location_aggregate_js : H) → Step H
    init_rides handle_match_accepted_js handle_location_aggregate_js =
        before (created (str "match accepted") match_accepted_rides) (
          before
            (consumed (str "match accepted") (str "MATCH_STREAM") (str "match_accepted_rides")
              handle_match_accepted_js)
            (before (created (str "location aggregate") location_aggregate_rides) (
              before
                (consumed (str "location aggregate") (str "LOCATION_STREAM")
                  (str "location_aggregate_rides") handle_location_aggregate_js)
                finished)))

    -- InitNATSConsumers of the location service.
    unfoldable pub init_location : (handle_location_update_js : H) → Step H
    init_location handle_location_update_js =
        before (created (str "location update") location_update_location) (
          before
            (consumed (str "location update") (str "LOCATION_STREAM")
              (str "location_update_location") handle_location_update_js)
            finished)

    unfoldable pub init_match_consumers :
        (handle_match_event_js handle_match_acc_event_js handle_match_rejected_event_js : H)
        → Step H
    init_match_consumers handle_match_event_js handle_match_acc_event_js
          handle_match_rejected_event_js =
        before (created (str "match found") match_found_users) (
          before
            (consumed (str "match found") (str "MATCH_STREAM") (str "match_found_users")
              handle_match_event_js)
            (before (created (str "match accepted") match_accepted_users) (
              before
                (consumed (str "match accepted") (str "MATCH_STREAM") (str "match_accepted_users")
                  handle_match_acc_event_js)
                (before (created (str "match rejected") match_rejected_users) (
                  before
                    (consumed (str "match rejected") (str "MATCH_STREAM")
                      (str "match_rejected_users") handle_match_rejected_event_js)
                    finished)))))

    unfoldable pub init_ride_consumers :
        (handle_ride_pickup_event_js handle_ride_start_event_js handle_ride_completed_event_js : H)
        → Step H
    init_ride_consumers handle_ride_pickup_event_js handle_ride_start_event_js
          handle_ride_completed_event_js =
        before (recreated (str "ride pickup") ride_pickup_users) (
          before
            (consumed (str "ride pickup") (str "RIDE_STREAM") (str "ride_pickup_users")
              handle_ride_pickup_event_js)
            (before (recreated (str "ride started") ride_started_users) (
              before
                (consumed (str "ride started") (str "RIDE_STREAM") (str "ride_started_users")
                  handle_ride_start_event_js)
                (before (recreated (str "ride completed") ride_completed_users) (
                  before
                    (consumed (str "ride completed") (str "RIDE_STREAM")
                      (str "ride_completed_users") handle_ride_completed_event_js)
                    finished)))))

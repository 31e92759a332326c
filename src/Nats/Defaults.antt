-- ===== src/Nats/Defaults.antt =====
-- The default streams and consumers: internal/pkg/nats/jetstream_helpers.go. Of the constants of
-- the NATS library, those in use are named; a duration is in nanoseconds.
use nebengjek.Prelude.{◌*◌, ℕ, Str, str, List, [], ◌∷◌}

pub data RetentionPolicy : Type 0 where
  limits_policy interest_policy : RetentionPolicy

pub data StorageType : Type 0 where
  file_storage memory_storage : StorageType

pub data DiscardPolicy : Type 0 where
  discard_old : DiscardPolicy

pub data DeliverPolicy : Type 0 where
  deliver_all deliver_new : DeliverPolicy

pub data AckPolicy : Type 0 where
  ack_explicit : AckPolicy

pub data ReplayPolicy : Type 0 where
  replay_instant : ReplayPolicy

pub record StreamConfig : Type 0 where
  pub name : Str
  pub subjects : List Str
  pub retention : RetentionPolicy
  pub storage : StorageType
  pub replicas : ℕ
  pub max_age : ℕ
  pub max_bytes : ℕ
  pub max_msgs : ℕ
  pub discard : DiscardPolicy

pub record ConsumerConfig : Type 0 where
  pub stream_name : Str
  pub consumer_name : Str
  pub subject : Str
  pub filter_subject : Str
  pub deliver_policy : DeliverPolicy
  pub ack_policy : AckPolicy
  pub ack_wait : ℕ
  pub max_deliver : ℕ
  pub replay_policy : ReplayPolicy
  pub rate_limit_bps : ℕ
  pub max_ack_pending : ℕ

abbrev hours : ℕ → ℕ
hours n = n * 3600000000000

abbrev megabytes : ℕ → ℕ
megabytes n = n * 1048576

-- `NewStreamConfigBuilder(name)` and what the default streams set after it.
abbrev pub stream_config : Str → List Str → RetentionPolicy → StorageType → ℕ → ℕ → ℕ → StreamConfig
stream_config name subjects retention storage max_age max_bytes max_msgs = record {
  name = name;
  subjects = subjects;
  retention = retention;
  storage = storage;
  replicas = 1;
  max_age = max_age;
  max_bytes = max_bytes;
  max_msgs = max_msgs;
  discard = discard_old;
}

unfoldable pub default_stream_configs : List StreamConfig
default_stream_configs =
    stream_config (str "USER_STREAM") (str "user.beacon" ∷ str "user.finder" ∷ []) interest_policy
      file_storage (hours 24) (megabytes 100) 1000000
    ∷ stream_config (str "MATCH_STREAM")
        (str "match.found" ∷ str "match.rejected" ∷ str "match.accepted" ∷ []) interest_policy
        file_storage (hours 1) (megabytes 50) 500000
    ∷ stream_config (str "RIDE_STREAM")
        (str "ride.pickup" ∷ str "ride.started" ∷ str "ride.arrived" ∷ str "ride.completed" ∷ [])
        limits_policy file_storage (hours 168) (megabytes 200) 2000000
    ∷ stream_config (str "LOCATION_STREAM") (str "location.update" ∷ str "location.aggregate" ∷ [])
        interest_policy memory_storage (hours 2) (megabytes 100) 1000000
    ∷ []

-- `NewConsumerConfigBuilder(stream, consumer)` and what the default consumers set after it.
abbrev pub consumer_config : Str → Str → Str → DeliverPolicy → ℕ → ConsumerConfig
consumer_config stream_name consumer_name filter_subject deliver_policy max_deliver = record {
  stream_name = stream_name;
  consumer_name = consumer_name;
  subject = [];
  filter_subject = filter_subject;
  deliver_policy = deliver_policy;
  ack_policy = ack_explicit;
  ack_wait = 30000000000;
  max_deliver = max_deliver;
  replay_policy = replay_instant;
  rate_limit_bps = 0;
  max_ack_pending = 1000;
}

abbrev pub user_beacon_users : ConsumerConfig
user_beacon_users =
    consumer_config (str "USER_STREAM") (str "user_beacon_users") (str "user.beacon") deliver_all 3

abbrev pub user_beacon_match : ConsumerConfig
user_beacon_match =
    consumer_config (str "USER_STREAM") (str "user_beacon_match") (str "user.beacon") deliver_all 3

abbrev pub user_finder_users : ConsumerConfig
user_finder_users =
    consumer_config (str "USER_STREAM") (str "user_finder_users") (str "user.finder") deliver_all 3

abbrev pub user_finder_match : ConsumerConfig
user_finder_match =
    consumer_config (str "USER_STREAM") (str "user_finder_match") (str "user.finder") deliver_all 3

abbrev pub match_found_users : ConsumerConfig
match_found_users =
    consumer_config (str "MATCH_STREAM") (str "match_found_users") (str "match.found") deliver_all 5

abbrev pub match_accepted_users : ConsumerConfig
match_accepted_users =
    consumer_config (str "MATCH_STREAM") (str "match_accepted_users") (str "match.accepted")
      deliver_all 5

abbrev pub match_accepted_rides : ConsumerConfig
match_accepted_rides =
    consumer_config (str "MATCH_STREAM") (str "match_accepted_rides") (str "match.accepted")
      deliver_all 5

abbrev pub match_rejected_users : ConsumerConfig
match_rejected_users =
    consumer_config (str "MATCH_STREAM") (str "match_rejected_users") (str "match.rejected")
      deliver_all 3

abbrev pub ride_pickup_users : ConsumerConfig
ride_pickup_users =
    consumer_config (str "RIDE_STREAM") (str "ride_pickup_users") (str "ride.pickup") deliver_new 5

abbrev pub ride_pickup_match : ConsumerConfig
ride_pickup_match =
    consumer_config (str "RIDE_STREAM") (str "ride_pickup_match") (str "ride.pickup") deliver_new 5

abbrev pub ride_started_users : ConsumerConfig
ride_started_users =
    consumer_config (str "RIDE_STREAM") (str "ride_started_users") (str "ride.started") deliver_new
      5

abbrev pub ride_completed_users : ConsumerConfig
ride_completed_users =
    consumer_config (str "RIDE_STREAM") (str "ride_completed_users") (str "ride.completed")
      deliver_new 3

abbrev pub ride_completed_match : ConsumerConfig
ride_completed_match =
    consumer_config (str "RIDE_STREAM") (str "ride_completed_match") (str "ride.completed")
      deliver_new 3

abbrev pub location_update_location : ConsumerConfig
location_update_location =
    consumer_config (str "LOCATION_STREAM") (str "location_update_location") (str "location.update")
      deliver_new 2

abbrev pub location_aggregate_rides : ConsumerConfig
location_aggregate_rides =
    consumer_config (str "LOCATION_STREAM") (str "location_aggregate_rides")
      (str "location.aggregate") deliver_all 3

unfoldable pub default_consumer_configs : List ConsumerConfig
default_consumer_configs =
    user_beacon_users ∷ user_beacon_match ∷ user_finder_users ∷ user_finder_match
    ∷ match_found_users ∷ match_accepted_users ∷ match_accepted_rides ∷ match_rejected_users
    ∷ ride_pickup_users ∷ ride_pickup_match ∷ ride_started_users ∷ ride_completed_users
    ∷ ride_completed_match ∷ location_update_location ∷ location_aggregate_rides ∷ []

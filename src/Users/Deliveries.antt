-- ===== src/Users/Deliveries.antt =====
-- The handlers of services/users/handler/nats/match.go and ride.go that the consumers call. The log
-- lines are left out; the last of them reads the metadata of the message, whose error is dropped.
use nebengjek.Prelude.{Str, Option, none, some}
use nebengjek.Exec.{Exec, panic}
use nebengjek.Users.Env.{Call, Env}
use nebengjek.Users.Handler.{
  handle_match_event, handle_match_acc_event, handle_match_rejected_event, handle_ride_pickup_event,
  handle_ride_start_event, handle_ride_completed_event,
}

-- The consumers that initMatchConsumers creates, and those of initRideConsumers.
pub data MatchTopic : Type 0 where
  match_found_users match_accepted_users match_rejected_users : MatchTopic

pub data RideTopic : Type 0 where
  ride_pickup_users ride_started_users ride_completed_users : RideTopic

pub data Topic : Type 0 where
  of_match : MatchTopic → Topic
  of_ride : RideTopic → Topic

module _ (env : Env) where
  unfoldable pub handle_match_event_js : Str → Exec Call (Unit {0})
  handle_match_event_js msg = handle_match_event env msg

  unfoldable pub handle_match_acc_event_js : Str → Exec Call (Unit {0})
  handle_match_acc_event_js msg = handle_match_acc_event env msg

  unfoldable pub handle_match_rejected_event_js : Str → Exec Call (Unit {0})
  handle_match_rejected_event_js msg = handle_match_rejected_event env msg

  unfoldable pub handle_ride_pickup_event_js : Str → Exec Call (Unit {0})
  handle_ride_pickup_event_js msg = handle_ride_pickup_event env msg

  unfoldable pub handle_ride_start_event_js : Str → Exec Call (Unit {0})
  handle_ride_start_event_js msg = handle_ride_start_event env msg

  -- Without metadata the pointer is nil.
  unfoldable pub handle_ride_completed_event_js : Option (Unit {0}) → Str → Exec Call (Unit {0})
  handle_ride_completed_event_js none msg = panic
  handle_ride_completed_event_js (some metadata) msg = handle_ride_completed_event env msg

  -- The handler that is registered for a consumer, and the metadata of the message, if there are any.
  unfoldable pub match_consumer : MatchTopic → Str → Exec Call (Unit {0})
  match_consumer match_found_users msg = handle_match_event_js msg
  match_consumer match_accepted_users msg = handle_match_acc_event_js msg
  match_consumer match_rejected_users msg = handle_match_rejected_event_js msg

  unfoldable pub ride_consumer : RideTopic → Option (Unit {0}) → Str → Exec Call (Unit {0})
  ride_consumer ride_pickup_users metadata msg = handle_ride_pickup_event_js msg
  ride_consumer ride_started_users metadata msg = handle_ride_start_event_js msg
  ride_consumer ride_completed_users metadata msg = handle_ride_completed_event_js metadata msg

  unfoldable pub handle_event : Topic → Option (Unit {0}) → Str → Exec Call (Unit {0})
  unfolding match_consumer ride_consumer
  handle_event (of_match consumer) metadata msg = match_consumer consumer msg
  handle_event (of_ride consumer) metadata msg = ride_consumer consumer metadata msg

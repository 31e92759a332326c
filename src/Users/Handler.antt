-- ===== src/Users/Handler.antt =====
-- The messages that the users service takes from NATS: services/users/handler/nats/match.go and
-- ride.go. Both parties, or the driver, are told over their sockets.
use nebengjek.Exec.{Result, Exec, of_result, wrapping, ◌>>=◌, ◌>>◌}
use nebengjek.Users.Env.{Call, Env}
use nebengjek.Prelude.{str, Str}
use nebengjek.Users.Socket.Clients.{notify_client}

module _ (env : Env) where
  -- A message to the driver, then one to the passenger.
  unfoldable pub notify_both : Str → Str → Str → Result Str → Exec Call (Unit {0})
  notify_both driver_id passenger_id event raw = do
    notify_client env driver_id event raw
    notify_client env passenger_id event raw

  unfoldable pub handle_match_event : Str → Exec Call (Unit {0})
  unfolding notify_both
  handle_match_event msg = do
    event ←
        wrapping (str "failed to unmarshal match event") (of_result (env.json.decode_proposal msg))
    notify_both event.driver_id event.passenger_id (str "match.found")
        (env.json.encode_proposal event)

  unfoldable pub handle_match_acc_event : Str → Exec Call (Unit {0})
  unfolding notify_both
  handle_match_acc_event msg = do
    event ←
        wrapping (str "failed to unmarshal match event") (of_result (env.json.decode_proposal msg))
    notify_both event.driver_id event.passenger_id (str "match.accepted")
        (env.json.encode_proposal event)

  unfoldable pub handle_match_rejected_event : Str → Exec Call (Unit {0})
  handle_match_rejected_event msg = do
    event ←
        wrapping (str "failed to unmarshal match rejected event")
          (of_result (env.json.decode_proposal msg))
    notify_client env event.driver_id (str "match_rejected") (env.json.encode_proposal event)

  -- Nothing calls it.
  unfoldable pub handle_match_accepted_event : Str → Exec Call (Unit {0})
  unfolding notify_both
  handle_match_accepted_event msg = do
    match_proposal ←
        wrapping (str "failed to unmarshal match accepted event")
          (of_result (env.json.decode_proposal msg))
    notify_both match_proposal.driver_id match_proposal.passenger_id (str "match_confirm")
        (env.json.encode_proposal match_proposal)

  unfoldable pub handle_ride_pickup_event : Str → Exec Call (Unit {0})
  unfolding notify_both
  handle_ride_pickup_event msg = do
    ride_pickup ←
        wrapping (str "failed to unmarshal ride pickup event")
          (of_result (env.json.decode_ride_resp msg))
    notify_both ride_pickup.driver_id ride_pickup.passenger_id (str "ride_pickup")
        (env.json.encode_ride_resp ride_pickup)

  unfoldable pub handle_ride_start_event : Str → Exec Call (Unit {0})
  unfolding notify_both
  handle_ride_start_event msg = do
    ride_started ←
        wrapping (str "failed to unmarshal ride start event")
          (of_result (env.json.decode_ride_resp msg))
    notify_both ride_started.driver_id ride_started.passenger_id (str "ride_started")
        (env.json.encode_ride_resp ride_started)

  unfoldable pub handle_ride_completed_event : Str → Exec Call (Unit {0})
  unfolding notify_both
  handle_ride_completed_event msg = do
    ride_complete ←
        wrapping (str "failed to unmarshal ride completed event")
          (of_result (env.json.decode_ride_complete msg))
    notify_both (env.uuid_string ride_complete.ride.driver_id)
        (env.uuid_string ride_complete.ride.passenger_id) (str "ride_completed")
        (env.json.encode_ride_complete ride_complete)

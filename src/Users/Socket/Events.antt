-- ===== src/Users/Socket/Events.antt =====
-- The handlers of the messages that a client sends; the events are from
-- internal/pkg/constants/websocket.go.
use nebengjek.Prelude.{Str, str, str_eq, ◌++◌, [], some, if◌then◌else◌}
use nebengjek.Exec.{message, Result, ok, err, Exec, pure, attempt, ◌>>=◌, ◌>>◌}
use nebengjek.Domain.Matches.{MatchProposal}
use nebengjek.Domain.Rides.{
  PaymentProccessRequest, PaymentStatus, payment_status_text, Payment, Ride,
}
use nebengjek.Domain.Users.{WsMessage}
use nebengjek.Users.Env.{Conn, Call, Env, ws_send, send}
use nebengjek.Users.Usecase.Forward
use nebengjek.Users.Socket.Clients.{
  ErrorSeverity, client, server, invalid_format, send_error, notify_client,
}

module _ (env : Env) (user_id : Str) (ws : Conn) where
  -- `if err := ...; err != nil { sendError(...); return nil }`
  abbrev pub or_report :
      {A : Type 0} → ErrorSeverity → Result A → (A → Exec Call (Unit {0})) → Exec Call (Unit {0})
  or_report whom (ok a) k = k a
  or_report whom (err e) k = send_error env ws e invalid_format whom

  unfoldable pub handle_beacon_update : Str → Exec Call (Unit {0})
  handle_beacon_update payload = or_report client (env.json.decode_beacon payload) (λ req. do
    done ← attempt (Forward.update_beacon_status env req)
    or_report server done
        (λ u. send env (ws_send ws (record { event = str "beacon_update"; payload = payload }))))

  unfoldable pub handle_finder_update : Str → Exec Call (Unit {0})
  handle_finder_update payload = or_report client (env.json.decode_finder payload) (λ req. do
    done ← attempt (Forward.update_finder_status env req)
    or_report server done
        (λ u. send env (ws_send ws (record { event = str "finder_update"; payload = payload }))))

  -- Both parties are notified.
  unfoldable pub notify_match : MatchProposal → Exec Call (Unit {0})
  notify_match result = do
    notify_client env result.driver_id (str "match_confirm") (env.json.encode_proposal result)
    notify_client env result.passenger_id (str "match_confirm") (env.json.encode_proposal result)

  unfoldable pub handle_match_confirmation : Str → Exec Call (Unit {0})
  unfolding notify_match
  handle_match_confirmation payload = or_report client (env.json.decode_confirm payload) (λ req. do
    result ← attempt (Forward.confirm_match env (record req { user_id = user_id }))
    or_report server result notify_match)

  unfoldable pub handle_location_update : Str → Exec Call (Unit {0})
  handle_location_update payload = or_report client (env.json.decode_location payload) (λ req. do
    done ← attempt (Forward.update_user_location env (some (record req { driver_id = user_id })))
    or_report server done (λ u. pure tt))

  unfoldable pub notify_start : Ride → Exec Call (Unit {0})
  notify_start resp = do
    notify_client env (env.uuid_string resp.driver_id) (str "ride_started")
        (env.json.encode_ride resp)
    notify_client env (env.uuid_string resp.passenger_id) (str "ride_started")
        (env.json.encode_ride resp)

  unfoldable pub handle_ride_start : Str → Exec Call (Unit {0})
  unfolding notify_start
  handle_ride_start payload =
      or_report client (env.json.decode_start payload)
        (λ req. do resp ← attempt (Forward.ride_start env req); or_report server resp notify_start)

  unfoldable pub handle_ride_arrived : Str → Exec Call (Unit {0})
  handle_ride_arrived payload = or_report client (env.json.decode_arrival payload) (λ req. do
    payment_req ← attempt (Forward.ride_arrived env req)
    or_report server payment_req (λ p.
        notify_client env p.passenger_id (str "payment_request")
          (env.json.encode_payment_request p)))

  -- Of an error of the encoding, no data are left.
  abbrev pub or_nil : Result Str → Str
  or_nil (ok s) = s
  or_nil (err e) = []

  unfoldable pub send_payment : Payment → Exec Call (Unit {0})
  send_payment payment = send env (
      ws_send ws (record {
        event = str "payment_processed";
        payload = or_nil (env.json.encode_payment payment);
      }))

  unfoldable pub pay : PaymentProccessRequest → Exec Call (Unit {0})
  unfolding send_payment
  pay req = do
    payment ← attempt (Forward.process_payment env req)
    or_report server payment send_payment

  -- Only ACCEPTED and REJECTED are requested of the rides service.
  unfoldable pub pay_if_final : PaymentStatus → PaymentProccessRequest → Exec Call (Unit {0})
  unfolding pay
  pay_if_final PaymentStatus.accepted req = pay req
  pay_if_final PaymentStatus.rejected req = pay req
  pay_if_final status req =
      send_error env ws (message (str "invalid payment status: " ++ payment_status_text status))
        invalid_format client

  unfoldable pub handle_process_payment : Str → Exec Call (Unit {0})
  unfolding pay_if_final
  handle_process_payment payload =
      or_report client (env.json.decode_payment payload) (λ req. pay_if_final req.status req)

  unfoldable pub handle_message : WsMessage → Exec Call (Unit {0})
  handle_message msg =
      if str_eq msg.event (str "beacon_update")
      then handle_beacon_update msg.payload
      else if str_eq msg.event (str "finder_update")
      then handle_finder_update msg.payload
      else if str_eq msg.event (str "match_confirm")
      then handle_match_confirmation msg.payload
      else if str_eq msg.event (str "location_update")
      then handle_location_update msg.payload
      else if str_eq msg.event (str "ride_started")
      then handle_ride_start msg.payload
      else if str_eq msg.event (str "ride_arrived")
      then handle_ride_arrived msg.payload
      else if str_eq msg.event (str "payment_processed")
      then handle_process_payment msg.payload
      else send_error env ws (message (str "unknown event type: " ++ msg.event)) invalid_format
          client

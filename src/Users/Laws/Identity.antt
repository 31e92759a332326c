-- ===== src/Users/Laws/Identity.antt =====
-- In whose name a connection acts: the handlers of
-- services/users/handler/websocket/echo_handler.go and the loop over the messages.
use nebengjek.Prelude.{Str, List, [], ◌∷◌, some, refl, true, false, Bool, arith, if◌then◌else◌}
use nebengjek.Exec.{◌>>◌, Result, Exec, attempt}
use nebengjek.Exec.Emits.{Extends, Emits-bind, Emits-silent, Emits-attempt}
use nebengjek.Domain.Rides.{PaymentProccessRequest, PaymentStatus}
use nebengjek.Domain.Users.{WsMessage}
use nebengjek.Users.Env.{add_client, Conn, Call, History, Env}
use nebengjek.Users.Usecase.Forward
use nebengjek.Users.Usecase.Forward.{update_user_location, confirm_match, at_origin, given_or_now}
use nebengjek.Users.Socket.Events
use nebengjek.Users.Socket.Events.{or_report, handle_message}
use nebengjek.Users.Socket.Clients.{server, client, notify_client}
use nebengjek.Users.Socket.Serve.{serve_messages, serve_client}
use nebengjek.Users.Laws.Acts.{
  acts, InNameOf, Acts, send_error-Acts, notify-Acts, or_report-Acts, location-Acts, confirm-Acts,
  beacon-Acts, finder-Acts,
}

module _ (env : Env) (u : Str) where
  both-Acts :
      (a b event : Str) (raw : Result Str)
      → Acts env u (notify_client env a event raw >> notify_client env b event raw)
  both-Acts a b event raw =
      Emits-bind _ _ (notify_client env a event raw) _ (notify-Acts env u a event raw)
        λ x. notify-Acts env u b event raw

  confirmation-Acts :
      (ws : Conn) (s : Str) → Acts env u (Events.handle_match_confirmation env u ws s)
  unfolding Events.handle_match_confirmation
  confirmation-Acts ws s = or_report-Acts env u ws client (env.json.decode_confirm s) _ λ req.
      Emits-bind _ _ (attempt (confirm_match env (record req { user_id = u }))) _
        (Emits-attempt _ _ _ (confirm-Acts env u (record req { user_id = u }) refl))
        λ r. or_report-Acts env u ws server r _ λ p. both-Acts p.driver_id p.passenger_id _ _

  update-Acts : (ws : Conn) (s : Str) → Acts env u (Events.handle_location_update env u ws s)
  unfolding Events.handle_location_update
  update-Acts ws s = or_report-Acts env u ws client (env.json.decode_location s) _ λ req.
      Emits-bind _ _ (attempt (update_user_location env (some (record req { driver_id = u })))) _
        (Emits-attempt _ _ _ (location-Acts env u (record req { driver_id = u }) refl))
        λ r. or_report-Acts env u ws server r _ λ x. Emits-silent _ _ _ (λ t. refl)

  start-Acts : (ws : Conn) (s : Str) → Acts env u (Events.handle_ride_start env u ws s)
  unfolding Events.handle_ride_start Forward.ride_start acts
  start-Acts ws s = or_report-Acts env u ws client (env.json.decode_start s) _ λ req.
      Emits-bind _ _ (attempt (Forward.ride_start env req)) _
        (Emits-silent _ _ _ (λ t. ground arith))
        λ r.
          or_report-Acts env u ws server r _
            λ p. both-Acts (env.uuid_string p.driver_id) (env.uuid_string p.passenger_id) _ _

  arrived-Acts : (ws : Conn) (s : Str) → Acts env u (Events.handle_ride_arrived env u ws s)
  unfolding Events.handle_ride_arrived Forward.ride_arrived acts
  arrived-Acts ws s = or_report-Acts env u ws client (env.json.decode_arrival s) _ λ req.
      Emits-bind _ _ (attempt (Forward.ride_arrived env req)) _
        (Emits-silent _ _ _ (λ t. ground arith))
        λ r. or_report-Acts env u ws server r _ λ p. notify-Acts env u p.passenger_id _ _

  pay-Acts : (ws : Conn) (req : PaymentProccessRequest) → Acts env u (Events.pay env u ws req)
  unfolding Events.pay Forward.process_payment acts
  pay-Acts ws req =
      Emits-bind _ _ (attempt (Forward.process_payment env req)) _
        (Emits-silent _ _ _ (λ t. ground arith))
        λ r. or_report-Acts env u ws server r _ λ p. Emits-silent _ _ _ (λ t. ground arith)

  pay_if-Acts :
      (ws : Conn) (s : PaymentStatus) (req : PaymentProccessRequest)
      → Acts env u (Events.pay_if_final env u ws s req)
  unfolding Events.pay_if_final
  pay_if-Acts ws PaymentStatus.accepted req = pay-Acts ws req
  pay_if-Acts ws PaymentStatus.rejected req = pay-Acts ws req
  pay_if-Acts ws PaymentStatus.pending req = send_error-Acts env u ws _ _ _
  pay_if-Acts ws PaymentStatus.processed req = send_error-Acts env u ws _ _ _
  pay_if-Acts ws (PaymentStatus.other s) req = send_error-Acts env u ws _ _ _

  payment-Acts : (ws : Conn) (s : Str) → Acts env u (Events.handle_process_payment env u ws s)
  unfolding Events.handle_process_payment
  payment-Acts ws s =
      or_report-Acts env u ws client (env.json.decode_payment s) _
        λ req. pay_if-Acts ws req.status req

  if-Acts :
      (b : Bool) (m n : Exec Call (Unit {0}))
      → Acts env u m
      → Acts env u n
      → Acts env u (if b then m else n)
  if-Acts true m n p q = p
  if-Acts false m n p q = q

  message-Acts : (ws : Conn) (msg : WsMessage) → Acts env u (handle_message env u ws msg)
  unfolding handle_message
  message-Acts ws msg = if-Acts _ _ _ (beacon-Acts env u ws msg.payload) (
      if-Acts _ _ _ (finder-Acts env u ws msg.payload) (
        if-Acts _ _ _ (confirmation-Acts ws msg.payload) (
          if-Acts _ _ _ (update-Acts ws msg.payload) (
            if-Acts _ _ _ (start-Acts ws msg.payload) (
              if-Acts _ _ _ (arrived-Acts ws msg.payload)
                (if-Acts _ _ _ (payment-Acts ws msg.payload) (send_error-Acts env u ws _ _ _)))))))

  serve-Acts : (ws : Conn) (msgs : List WsMessage) → Acts env u (serve_messages env u ws msgs)
  unfolding serve_messages
  serve-Acts ws [] = Emits-silent _ _ _ (λ t. refl)
  serve-Acts ws (msg ∷ msgs) =
      Emits-bind _ _ (attempt (handle_message env u ws msg)) _
        (Emits-attempt _ _ _ (message-Acts ws msg)) λ r. serve-Acts ws msgs

  -- Whatever messages a connection sends, and however their handling ends, each location and each
  -- confirmation that is passed on is in the name of the user of the connection, and a
  -- confirmation says ACCEPTED or REJECTED.
  pub serve-Extends :
      (ws : Conn) (msgs : List WsMessage) (t : History)
      → Extends (InNameOf u) (acts t) (acts (serve_client env u ws msgs t).1)
  unfolding serve_client acts
  serve-Extends ws msgs t = (serve-Acts ws msgs).at (add_client u ws ∷ t)

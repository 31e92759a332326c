-- ===== src/Users/Laws/Programs.antt =====
-- What one connection does to the map of clients, from its handshake to its end: HandleWebSocket of
-- services/users/handler/websocket/echo_handler.go.
use nebengjek.Prelude.{ap, Str, str, ◌++◌, List, [], ◌∷◌, refl, ◌≡◌, arith, inl, inr, some}
use nebengjek.Exec.{message}
use nebengjek.Exec.Laws.{Result-cases}
use nebengjek.Domain.Matches.{MatchConfirmRequest}
use nebengjek.Domain.Rides.{LocationUpdate, PaymentProccessRequest, PaymentStatus}
use nebengjek.Domain.Users.{WsMessage, BeaconRequest, FinderRequest}
use nebengjek.Users.Env.{add_client, remove_client, ws_close, Conn, History, Env}
use nebengjek.Users.Repo
use nebengjek.Users.Usecase.Forward
use nebengjek.Users.Socket.Events
use nebengjek.Users.Socket.Events.{handle_message}
use nebengjek.Users.Socket.Clients.{notify_client, send_error, client, invalid_format}
use nebengjek.Users.Socket.Serve.{serve_messages, serve_client}

-- The changes of the map and the ends of connections in a history, the newest first.
unfoldable pub registry_calls : History → History
registry_calls [] = []
registry_calls (add_client u ws ∷ t) = add_client u ws ∷ registry_calls t
registry_calls (remove_client u ∷ t) = remove_client u ∷ registry_calls t
registry_calls (ws_close ws ∷ t) = ws_close ws ∷ registry_calls t
registry_calls (c ∷ t) = registry_calls t

module _ (env : Env) where
  by_id-registry :
      (id : Str) (t : History) → registry_calls (Repo.get_user_by_id env id t).1 ≡ registry_calls t
  unfolding Repo.get_user_by_id Repo.get_user_by_field Repo.get_driver_info registry_calls
  by_id-registry id t = ground arith

  by_msisdn-registry :
      (id : Str) (t : History)
      → registry_calls (Repo.get_user_by_msisdn env id t).1 ≡ registry_calls t
  unfolding Repo.get_user_by_msisdn Repo.get_driver_info registry_calls
  by_msisdn-registry id t = ground arith

  told_beacon-registry :
      (req : BeaconRequest) (t : History)
      → registry_calls (Forward.update_beacon_status env req t).1 ≡ registry_calls t
  unfolding Forward.update_beacon_status registry_calls
  told_beacon-registry req t = ground (arith, by_msisdn-registry req.msisdn t)

  told_finder-registry :
      (req : FinderRequest) (t : History)
      → registry_calls (Forward.update_finder_status env req t).1 ≡ registry_calls t
  unfolding Forward.update_finder_status registry_calls
  told_finder-registry req t = ground (arith, by_msisdn-registry req.msisdn t)

  confirm-registry :
      (req : MatchConfirmRequest) (t : History)
      → registry_calls (Forward.confirm_match env req t).1 ≡ registry_calls t
  unfolding Forward.confirm_match registry_calls
  confirm-registry req t = ground (arith, by_id-registry req.user_id t)

  located-registry :
      (lu : LocationUpdate) (t : History)
      → registry_calls (Forward.update_user_location env (some lu) t).1 ≡ registry_calls t
  unfolding Forward.update_user_location registry_calls
  located-registry lu t = ground (arith, by_id-registry lu.driver_id t)

module _ (env : Env) (u : Str) (ws : Conn) where
  beacon-registry :
      (s : Str) (t : History)
      → registry_calls (Events.handle_beacon_update env u ws s t).1 ≡ registry_calls t
  unfolding Events.handle_beacon_update send_error registry_calls
  beacon-registry s t = elim (Result-cases (env.json.decode_beacon s)) [
    | inl (req, a) ↦ ground (arith, told_beacon-registry env req t)
    | inr (e, a) ↦ ground arith
  ]

  finder-registry :
      (s : Str) (t : History)
      → registry_calls (Events.handle_finder_update env u ws s t).1 ≡ registry_calls t
  unfolding Events.handle_finder_update send_error registry_calls
  finder-registry s t = elim (Result-cases (env.json.decode_finder s)) [
    | inl (req, a) ↦ ground (arith, told_finder-registry env req t)
    | inr (e, a) ↦ ground arith
  ]

  confirmation-registry :
      (s : Str) (t : History)
      → registry_calls (Events.handle_match_confirmation env u ws s t).1 ≡ registry_calls t
  unfolding Events.handle_match_confirmation Events.notify_match notify_client send_error
      registry_calls
  confirmation-registry s t = elim (Result-cases (env.json.decode_confirm s)) [
    | inl (req, a) ↦ ground (arith, confirm-registry env (record req { user_id = u }) t)
    | inr (e, a) ↦ ground arith
  ]

  update-registry :
      (s : Str) (t : History)
      → registry_calls (Events.handle_location_update env u ws s t).1 ≡ registry_calls t
  unfolding Events.handle_location_update send_error registry_calls
  update-registry s t = elim (Result-cases (env.json.decode_location s)) [
    | inl (req, a) ↦ ground (arith, located-registry env (record req { driver_id = u }) t)
    | inr (e, a) ↦ ground arith
  ]

  start-registry :
      (s : Str) (t : History)
      → registry_calls (Events.handle_ride_start env u ws s t).1 ≡ registry_calls t
  unfolding Events.handle_ride_start Events.notify_start notify_client Forward.ride_start send_error
      registry_calls
  start-registry s t = ground arith

  arrived-registry :
      (s : Str) (t : History)
      → registry_calls (Events.handle_ride_arrived env u ws s t).1 ≡ registry_calls t
  unfolding Events.handle_ride_arrived notify_client Forward.ride_arrived send_error registry_calls
  arrived-registry s t = ground arith

  pay-registry :
      (status : PaymentStatus) (req : PaymentProccessRequest) (t : History)
      → registry_calls (Events.pay_if_final env u ws status req t).1 ≡ registry_calls t
  unfolding Events.pay_if_final Events.pay Events.send_payment Forward.process_payment send_error
      registry_calls
  pay-registry status req t = ground arith

  payment-registry :
      (s : Str) (t : History)
      → registry_calls (Events.handle_process_payment env u ws s t).1 ≡ registry_calls t
  unfolding Events.handle_process_payment send_error registry_calls
  payment-registry s t = elim (Result-cases (env.json.decode_payment s)) [
    | inl (req, a) ↦ ground (arith, pay-registry req.status req t)
    | inr (e, a) ↦ ground arith
  ]

  unknown-registry :
      (event : Str) (t : History)
      → registry_calls
          (send_error env ws
            (message (str "unknown event type: " ++ event))
            invalid_format
            client
            t).1
        ≡ registry_calls t
  unfolding send_error registry_calls
  unknown-registry event t = ground arith

  message-registry :
      (msg : WsMessage) (t : History)
      → registry_calls (handle_message env u ws msg t).1 ≡ registry_calls t
  unfolding handle_message
  message-registry msg t = ground (
    arith,
    beacon-registry msg.payload t,
    finder-registry msg.payload t,
    confirmation-registry msg.payload t,
    update-registry msg.payload t,
    start-registry msg.payload t,
    arrived-registry msg.payload t,
    payment-registry msg.payload t,
    unknown-registry msg.event t,
  )

  messages-registry :
      (msgs : List WsMessage) (t : History)
      → registry_calls (serve_messages env u ws msgs t).1 ≡ registry_calls t
  unfolding serve_messages
  messages-registry [] t = refl
  messages-registry (msg ∷ msgs) t =
      ground
        (arith, message-registry msg t, messages-registry msgs (handle_message env u ws msg t).1)

  -- However the serving of a connection ends, it has been put on the map, has been taken off it and
  -- has been closed, each once and in this order, and nothing else was put on the map or taken off.
  pub serve_client-registry :
      (msgs : List WsMessage) (t : History)
      → registry_calls (serve_client env u ws msgs t).1
        ≡ ws_close ws ∷ remove_client u ∷ add_client u ws ∷ registry_calls t
  unfolding serve_client registry_calls
  serve_client-registry msgs t =
      ap (λ x. ws_close ws ∷ remove_client u ∷ x) (messages-registry msgs (add_client u ws ∷ t))

-- ===== src/Tests/Sockets.antt =====
-- The theorems about the sockets at concrete inputs.
use nebengjek.Prelude.{◌++◌, Str, str, str_eq, List, [], ◌∷◌, ◌≡◌, ◌≢◌, refl, none, some, arith}
use nebengjek.Domain.Users.{WsMessage}
use nebengjek.Users.Env.{add_client, remove_client, ws_close, History, Conn}
use nebengjek.Users.Socket.Clients.{clients_after, client_of, with_client}
use nebengjek.Users.Laws.Registry.{
  Hub, Reachable, start, program, advanced, begin, next, advance, program-calls, registered_served,
  reconnect_lost,
}
use nebengjek.Tests.UserWorld.{user_world}
use nebengjek.Users.Deliveries.{ride_pickup_users, handle_event, of_ride}
use nebengjek.Users.Laws.Notices.{handle_event_told, deliveries, sent, notice_of, Notice}
use nebengjek.Exec.{returned, ok}

-- A confirmation and a location, both in the name of user 9 in their data.
abbrev pub messages : List WsMessage
messages =
    record { event = str "match_confirm"; payload = str "ACCEPTED" }
    ∷ record { event = str "location_update"; payload = [] }
    ∷ []

abbrev one_user : Conn → Str
one_user ws = 2 ∷ []

abbrev of_messages : Conn → List WsMessage
of_messages ws = messages

abbrev connected : Hub
connected =
    advanced (start user_world one_user of_messages) 7 (add_client (2 ∷ []) 7)
      (remove_client (2 ∷ []) ∷ ws_close 7 ∷ [])

connected-Reachable : Reachable user_world one_user of_messages connected
unfolding start
connected-Reachable = next (start user_world one_user of_messages) connected begin (
    advance (start user_world one_user of_messages) 7 _ _
      (program-calls user_world one_user of_messages 7))

connected_client : client_of (2 ∷ []) (clients_after connected.done) ≡ some 7
unfolding client_of with_client clients_after str_eq start
connected_client = refl

registered_served_example :
    (one_user 7 ≡ 2 ∷ []) × (connected.remaining 7 ≡ remove_client (2 ∷ []) ∷ ws_close 7 ∷ [])
registered_served_example =
    registered_served user_world one_user of_messages connected (2 ∷ []) 7 connected-Reachable
      connected_client

seven-ne-eight : ◌≢◌ {A = Conn} 7 8
seven-ne-eight e = absurd (ground (arith, e))

start_remaining :
    (ws : Conn)
    → (start user_world one_user of_messages).remaining ws
      ≡ program user_world one_user of_messages ws
unfolding start
start_remaining ws = refl

reconnect_lost_example :
    (h' : Hub) × Reachable user_world one_user of_messages h'
    × (h'.done
        ≡ remove_client (2 ∷ [])
          ∷ add_client (2 ∷ []) 8
          ∷ add_client (2 ∷ []) 7
          ∷ (start user_world one_user of_messages).done)
    × (h'.remaining 8 ≡ remove_client (2 ∷ []) ∷ ws_close 8 ∷ [])
    × (client_of (2 ∷ []) (clients_after h'.done) ≡ none)
reconnect_lost_example =
    reconnect_lost user_world one_user of_messages (start user_world one_user of_messages) 7 8 begin
      (start_remaining 7) (start_remaining 8) seven-ne-eight refl

-- Of a pickup, only the passenger is connected.
abbrev passenger_only : History
passenger_only = add_client (3 ∷ []) 7 ∷ []

abbrev pickup_notice : Notice
pickup_notice = record {
  users = (2 ∷ []) ∷ (3 ∷ []) ∷ [];
  event = str "ride_pickup";
  raw = ok (5 ∷ []);
}

notices : notice_of user_world (of_ride ride_pickup_users) (5 ∷ []) ≡ ok pickup_notice
unfolding notice_of
notices = refl

handle_event_told_example :
    ((handle_event user_world (of_ride ride_pickup_users) none (5 ∷ []) passenger_only).0
      ≡ returned tt)
    × (sent (handle_event user_world (of_ride ride_pickup_users) none (5 ∷ []) passenger_only).1
        ≡ deliveries
            (clients_after passenger_only)
            pickup_notice.users
            pickup_notice.event
            pickup_notice.raw
          ++ sent passenger_only)
handle_event_told_example =
    handle_event_told user_world (of_ride ride_pickup_users) none (5 ∷ []) passenger_only
      pickup_notice notices refl

passenger_told :
    sent (handle_event user_world (of_ride ride_pickup_users) none (5 ∷ []) passenger_only).1
    ≡ (7, record { event = str "ride_pickup"; payload = 5 ∷ [] }) ∷ []
unfolding handle_event nebengjek.Users.Deliveries.ride_consumer
    nebengjek.Users.Deliveries.handle_ride_pickup_event_js sent
    nebengjek.Users.Handler.handle_ride_pickup_event nebengjek.Users.Socket.Clients.notify_client
    str_eq
passenger_told = refl

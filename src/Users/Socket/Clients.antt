-- ===== src/Users/Socket/Clients.antt =====
-- The map of clients of EchoWebSocketHandler, and the messages that are sent to them. Its state is
-- what the additions and removals of the history have made of it.
use nebengjek.Prelude.{Str, str, str_eq, List, [], ◌∷◌, ◌++◌, Option, some, none, if◌then◌else◌}
use nebengjek.Exec.{Error, error_text, Result, ok, err, Exec, pure, attempt, ◌>>◌}
use nebengjek.Domain.Users.{WsMessage}
use nebengjek.Users.Env.{Conn, Call, History, Env, add_client, remove_client, ws_send, send}

abbrev pub Clients : Type 0
Clients = List (Str × Conn)

-- `h.clients[userID] = ws`
unfoldable pub with_client : Str → Conn → Clients → Clients
with_client user_id ws clients = (user_id, ws) ∷ clients

-- `delete(h.clients, userID)`
unfoldable pub without_client : Str → Clients → Clients
without_client user_id [] = []
without_client user_id ((u, ws) ∷ clients) =
    if str_eq u user_id
    then without_client user_id clients
    else (u, ws) ∷ without_client user_id clients

-- `ws, exists := h.clients[userID]`
unfoldable pub client_of : Str → Clients → Option Conn
client_of user_id [] = none
client_of user_id ((u, ws) ∷ clients) =
    if str_eq u user_id then some ws else client_of user_id clients

unfoldable pub clients_after : History → Clients
unfolding with_client without_client
clients_after [] = []
clients_after (add_client user_id ws ∷ t) = with_client user_id ws (clients_after t)
clients_after (remove_client user_id ∷ t) = without_client user_id (clients_after t)
clients_after (c ∷ t) = clients_after t

-- Whom an error message is for. Any other severity counts as one of the server.
pub data ErrorSeverity : Type 0 where
  client server security : ErrorSeverity

unfoldable pub error_message : ErrorSeverity → Error → Str
error_message ErrorSeverity.client e = error_text e
error_message ErrorSeverity.security e = str "Access denied"
error_message ErrorSeverity.server e = str "Operation failed"

-- `{"code":"%s","message":"%s"}`
abbrev pub quoted : Str → Str
quoted s = b'"' ∷ (s ++ (b'"' ∷ []))

unfoldable pub error_payload : Str → Str → Str
error_payload code msg =
    b'{'
    ∷ (quoted (str "code")
        ++ (b':'
            ∷ (quoted code
                ++ (b',' ∷ (quoted (str "message") ++ (b':' ∷ (quoted msg ++ (b'}' ∷ []))))))))

abbrev pub invalid_format : Str
invalid_format = str "invalid_format"

module _ (env : Env) where
  -- A failure to send is logged.
  abbrev pub send_or_log : Conn → WsMessage → Exec Call (Unit {0})
  send_or_log ws msg = do attempt (send env (ws_send ws msg)); pure tt

  unfoldable pub send_error : Conn → Error → Str → ErrorSeverity → Exec Call (Unit {0})
  unfolding error_message error_payload
  send_error ws e code whom =
      send_or_log ws
        (record { event = str "error"; payload = error_payload code (error_message whom e) })

  -- The data as `json.Marshal` has encoded them.
  abbrev pub notify : Option Conn → Str → Result Str → Exec Call (Unit {0})
  notify none event raw = pure tt
  notify (some ws) event (err e) = pure tt
  notify (some ws) event (ok raw) = send_or_log ws (record { event = event; payload = raw })

  unfoldable pub notify_client : Str → Str → Result Str → Exec Call (Unit {0})
  unfolding clients_after client_of
  notify_client user_id event raw t = notify (client_of user_id (clients_after t)) event raw t

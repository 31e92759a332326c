-- ===== src/Users/Socket/Serve.antt =====
-- One connection from the handshake to its end: HandleWebSocket. The messages are those that
-- `websocket.JSON.Receive` returns before its first error, which ends the loop.
use nebengjek.Prelude.{Bool, Str, str, str_eq, List, [], ◌∷◌, ◌||◌, Option, some, if◌then◌else◌}
use nebengjek.Exec.{returned, message, Exec, pure, fail, attempt, deferring, ◌>>◌}
use nebengjek.Domain.Users.{WsMessage}
use nebengjek.Users.Env.{Conn, Call, Env, add_client, remove_client, ws_close}
use nebengjek.Users.Socket.Events.{handle_message}

-- A change of the map of clients always succeeds.
abbrev pub register : Str → Conn → Exec Call (Unit {0})
register user_id ws t = (returned tt, add_client user_id ws ∷ t)

abbrev pub is_no_user : Str → Bool
is_no_user user_id =
    str_eq user_id []
    || (str_eq user_id (str "<nil>") || str_eq user_id (str "00000000-0000-0000-0000-000000000000"))

module _ (env : Env) where
  -- An error of a handler is logged.
  unfoldable pub serve_messages : Str → Conn → List WsMessage → Exec Call (Unit {0})
  serve_messages user_id ws [] = pure tt
  serve_messages user_id ws (msg ∷ msgs) =
      let rest = serve_messages user_id ws msgs in
      do attempt (handle_message env user_id ws msg); rest

  unfoldable pub serve_client : Str → Conn → List WsMessage → Exec Call (Unit {0})
  serve_client user_id ws msgs =
      deferring (ws_close ws)
        (do register user_id ws; deferring (remove_client user_id) (serve_messages user_id ws msgs))

  -- The user and the role that the token check has left in the context, as text.
  unfoldable pub handle_websocket :
      Option Str → Option Str → Conn → List WsMessage → Exec Call (Unit {0})
  handle_websocket (some user_id) (some role) ws msgs =
      if is_no_user user_id
      then fail (message (str "Invalid user credentials in token"))
      else serve_client user_id ws msgs
  handle_websocket user_id role ws msgs = fail (message (str "Missing user credentials in token"))

-- ===== src/Nats/Session.antt =====
-- The connection of internal/pkg/nats/client.go and what is read of its maps. What the NATS library
-- and the server answer are arguments.
use nebengjek.Prelude.{Str, str, ◌++◌, List, [], ◌∷◌, Bool, true, false, if◌then◌else◌}
use nebengjek.Exec.{Error, Result, ok, err, Ok, message, wrap}
use nebengjek.Nats.Client.{Client, has, key_of, stream_not_found}
use nebengjek.Nats.Setup.{initialize_default_streams}

abbrev pub no_maps : Client
no_maps = record { streams = []; consumers = [] }

abbrev pub started : Ok × Client → Result Client × Bool
started (ok u, c) = (ok c, true)
started (err e, c) = (err (wrap (str "failed to initialize default streams") e), false)

-- `NewClient`: the result, and whether a connection is left open.
unfoldable pub new_client : Ok → Ok → (Str → Ok) → Result Client × Bool
unfolding initialize_default_streams
new_client (err e) js reply = (err (wrap (str "failed to connect to NATS server") e), false)
new_client (ok u) (err e) reply = (err (wrap (str "failed to create JetStream context") e), false)
new_client (ok u) (ok v) reply = started (initialize_default_streams reply no_maps)

abbrev pub wrapped {ℓ} : {A : Type ℓ} → Str → Result A → Result A
wrapped s (ok a) = ok a
wrapped s (err e) = err (wrap s e)

-- `PublishAsync`: the handler is called once, with the acknowledgement or with an error, whichever
-- comes first of the two and the end of the connection.
pub data Settlement : Type 0 where
  acknowledged : Settlement
  rejected : Error → Settlement
  ended : Error → Settlement

abbrev pub settled_with : Settlement → Result (Unit {0})
settled_with acknowledged = ok tt
settled_with (rejected e) = err e
settled_with (ended e) = err e

-- The result, and what the handler is called with, if it is.
unfoldable pub publish_async : Ok → Settlement → Ok × List (Result (Unit {0}))
publish_async (err e) s = (err (wrap (str "failed to publish async message") e), [])
publish_async (ok u) s = (ok tt, settled_with s ∷ [])

abbrev pub subscribe {ℓ} : {A : Type ℓ} → Str → Result A → Result A
subscribe subject reply = wrapped (str "failed to subscribe to subject " ++ subject) reply

abbrev pub request {ℓ} : {A : Type ℓ} → Str → Result A → Result A
request subject reply = wrapped (str "failed to send request to subject " ++ subject) reply

-- A handle is known by its name.
unfoldable pub get_stream : Str → Client → Result Str
get_stream name c =
    if has name c.streams
    then ok name
    else err (message (str "stream " ++ (name ++ str " not found")))

unfoldable pub get_consumer : Str → Str → Client → Result Str
get_consumer stream consumer c =
    if has (key_of stream consumer) c.consumers
    then ok (key_of stream consumer)
    else err (message (str "consumer " ++ (key_of stream consumer ++ str " not found")))

-- `info.Err()` after the last of the streams.
abbrev pub list_streams {ℓ} : {A : Type ℓ} → List A → Ok → Result (List A)
list_streams infos (ok u) = ok infos
list_streams infos (err e) = err (wrap (str "failed to list streams") e)

unfoldable pub purge_stream : Ok → Str → Client → Ok
purge_stream reply name c =
    if has name c.streams
    then wrapped (str "failed to purge stream " ++ name) reply
    else stream_not_found name

unfoldable pub get_stream_info : Ok → Str → Client → Ok
get_stream_info reply name c =
    if has name c.streams
    then wrapped (str "failed to get stream info") reply
    else stream_not_found name

-- A client with the handlers to which the messages of its consumers go, newest first.
pub record Session (H : Type 0) : Type 0 where
  pub client : Client
  pub consuming : List (Str × H)

module _ {H : Type 0} where
  abbrev begun : Ok → Str → H → Session H → Ok × Session H
  begun (ok u) key handler s = (ok tt, record s { consuming = (key, handler) ∷ s.consuming })
  begun (err e) key handler s = (err (wrap (str "failed to start consuming") e), s)

  -- What the consumer answers is given by its key.
  unfoldable pub consume_messages : (Str → Ok) → Str → Str → H → Session H → Ok × Session H
  consume_messages reply stream consumer handler s =
      if has (key_of stream consumer) s.client.consumers
      then begun (reply (key_of stream consumer)) (key_of stream consumer) handler s
      else (err (message (str "consumer " ++ (key_of stream consumer ++ str " not found"))), s)

-- ===== src/Nats/Producer.antt =====
-- internal/pkg/nats/producer.go. Encoding and the connection are arguments.
use nebengjek.Prelude.{Str, str, str_eq, [], if◌then◌else◌}
use nebengjek.Exec.{Result, ok, err, Ok, message, wrap}
use nebengjek.Nats.Session.{wrapped}

-- `NewProducer`
unfoldable pub new_producer : Ok → Str → Ok
new_producer connect_reply address =
    if str_eq address []
    then err (message (str "NATS server address cannot be empty"))
    else wrapped (str "failed to connect to NATS server") connect_reply

-- `Publish`: what is encoded is sent.
unfoldable pub producer_publish : Result Str → (Str → Ok) → Ok
producer_publish (err e) send = err (wrap (str "failed to marshal message") e)
producer_publish (ok bytes) send = wrapped (str "failed to publish message") (send bytes)

-- `PublishAsync`, which differs only by its log.
abbrev pub producer_publish_async : Result Str → (Str → Ok) → Ok
producer_publish_async = producer_publish

-- ===== src/Nats/Laws/Subscriptions.antt =====
-- How the consumers of internal/pkg/nats/consumer.go are made: NewJetStreamConsumer.
use nebengjek.Prelude.{some, true, ◌≡◌, refl, str}
use nebengjek.Exec.{wrap, ok, err, Ok}
use nebengjek.Nats.Laws.Defaults.{has-first}
use nebengjek.Nats.Subscriber.{on_stream, started_or_failed, new_jet_stream_consumer}
use nebengjek.Nats.Client.{without, key_of, has, Client, create_consumer}
use nebengjek.Nats.Defaults.{ConsumerConfig}
use nebengjek.Nats.Consumer.{start_consuming}

-- A consumer that was created is found, so that the failure "not found after creation" never
-- happens: with a stream that is known, the result is decided by the two answers of the server.
pub new_jet_stream_consumer_lem :
    (create_reply consume_reply : Ok) (config : ConsumerConfig) (client : Client)
    → has config.stream_name client.streams ≡ true
    → (new_jet_stream_consumer create_reply consume_reply config (some client)).0
      ≡ elim create_reply [
        | err e ↦
            err (wrap (str "failed to create consumer") (wrap (str "failed to create consumer") e))
        | ok u ↦ started_or_failed (start_consuming consume_reply on_stream)
      ]
unfolding new_jet_stream_consumer create_consumer
new_jet_stream_consumer_lem (err e) consume_reply config client known = rw known refl
new_jet_stream_consumer_lem (ok u) consume_reply config client known =
    let key = key_of config.stream_name config.consumer_name in
    rw (known, has-first key (without key client.consumers)) refl

-- ===== src/Nats/Subscriber.antt =====
-- How a consumer of internal/pkg/nats/consumer.go is made, and what it asks of the server. What the
-- NATS library answers is an argument, and a message is its text.
use nebengjek.Prelude.{
  Option, none, some, Str, str, str_eq, ◌++◌, ℕ, List, [], true, false, Bool, if◌then◌else◌,
}
use nebengjek.Exec.{Result, ok, err, Ok, message, wrap}
use nebengjek.Nats.Client.{Client, has, key_of, create_consumer}
use nebengjek.Nats.Consumer.{Consumer, is_usable, start_consuming}
use nebengjek.Nats.Defaults.{ConsumerConfig, ack_explicit, deliver_all}
use nebengjek.Nats.Session.{wrapped}

-- A new consumer on a subject: the subscription and the context are there.
abbrev pub subscribed : Consumer
subscribed = record {
  is_jet_stream = false;
  has_consumer = false;
  consume_ctx = false;
  delivering = false;
  subscription = true;
  cancelled = false;
  connected = true;
}

-- `NewConsumer`: the result, and whether a connection is left open. With a queue group or without
-- one, the subscription is asked for once.
unfoldable pub new_consumer : Ok → Ok → Ok → Str → Result Consumer × Bool
new_consumer (err e) queue_reply reply queue_group =
    (err (wrap (str "failed to connect to NATS server") e), false)
new_consumer (ok u) queue_reply reply queue_group =
    elim (if str_eq queue_group [] then reply else queue_reply) [
      | ok v ↦ (ok subscribed, true)
      | err e ↦ (err (wrap (str "failed to subscribe to topic") e), false)
    ]

abbrev pub on_stream : Consumer
on_stream = record {
  is_jet_stream = true;
  has_consumer = true;
  consume_ctx = false;
  delivering = false;
  subscription = false;
  cancelled = false;
  connected = true;
}

abbrev pub started_or_failed : Ok × Consumer → Result Consumer
started_or_failed (ok u, c) = ok c
started_or_failed (err e, c) = err (wrap (str "failed to start consuming") e)

-- The consumer that is looked up again after it was created.
abbrev pub looked_up : ConsumerConfig → Ok × Client → Result (Unit {0}) × Client
looked_up config (err e, client) = (err (wrap (str "failed to create consumer") e), client)
looked_up config (ok u, client) =
    let key = key_of config.stream_name config.consumer_name in
    (
      if has key client.consumers
          then ok tt
          else err (message (str "consumer " ++ (key ++ str " not found after creation"))),
      client,
    )

abbrev pub found : Ok → ConsumerConfig → Client → Result (Unit {0}) × Client
unfolding create_consumer has
found create_reply config client =
    looked_up config (create_consumer create_reply config.stream_name config.consumer_name client)

abbrev pub after_found {ℓ} :
    {A : Type ℓ} → Result (Unit {0}) × Client → Result A → Result A × Client
after_found (ok u, client) r = (r, client)
after_found (err e, client) r = (err e, client)

-- `NewJetStreamConsumer`
unfoldable pub new_jet_stream_consumer :
    Ok → Ok → ConsumerConfig → Option Client → Result Consumer × Option Client
unfolding found start_consuming
new_jet_stream_consumer create_reply consume_reply config none =
    (err (message (str "client cannot be nil")), none)
new_jet_stream_consumer create_reply consume_reply config (some client) =
    let made =
      after_found (found create_reply config client)
        (started_or_failed (start_consuming consume_reply on_stream)) in
    (made.0, some made.1)

-- `NewJetStreamPullConsumer`; the two policies are set whatever the configuration says.
unfoldable pub new_jet_stream_pull_consumer :
    Ok → ConsumerConfig → Option Client → Result Consumer × Option Client
unfolding found
new_jet_stream_pull_consumer create_reply config none =
    (err (message (str "client cannot be nil")), none)
new_jet_stream_pull_consumer create_reply config (some client) =
    let made =
      after_found
        (found create_reply
          (record config { ack_policy = ack_explicit; deliver_policy = deliver_all }) client)
        (ok on_stream) in
    (made.0, some made.1)

abbrev pub not_on_stream {ℓ} : {A : Type ℓ} → Result A
not_on_stream = err (message (str "not a JetStream consumer"))

-- The messages that came, with the error that follows them, if there is one.
unfoldable pub fetch : Result (List Str × Ok) → Consumer → List Str × Ok
fetch reply c =
    if is_usable c
    then elim reply [
      | err e ↦ ([], err (wrap (str "failed to fetch messages") e))
      | ok batch ↦ (batch.0, wrapped (str "error during fetch") batch.1)
    ]
    else ([], not_on_stream)

unfoldable pub fetch_one : Result Str → Consumer → Result Str
fetch_one reply c =
    if is_usable c then wrapped (str "failed to fetch message") reply else not_on_stream

-- What is read of `jetstream.ConsumerInfo`.
pub record ConsumerInfo : Type 0 where
  pub stream : Str
  pub num_pending : ℕ
  pub num_ack_pending : ℕ

unfoldable pub get_info : Result ConsumerInfo → Consumer → Result ConsumerInfo
get_info reply c =
    if is_usable c then wrapped (str "failed to get consumer info") reply else not_on_stream

abbrev pub mapped {ℓ κ} : {A : Type ℓ} {B : Type κ} → (A → B) → Result A → Result B
mapped f (ok a) = ok (f a)
mapped f (err e) = err e

unfoldable pub get_pending_messages : Result ConsumerInfo → Consumer → Result ℕ
get_pending_messages reply c =
    if is_usable c
    then mapped (λ i. i.num_pending) (wrapped (str "failed to get consumer info") reply)
    else not_on_stream

unfoldable pub get_ack_pending : Result ConsumerInfo → Consumer → Result ℕ
get_ack_pending reply c =
    if is_usable c
    then mapped (λ i. i.num_ack_pending) (wrapped (str "failed to get consumer info") reply)
    else not_on_stream

-- The stream is looked for by the name that the info gives. The consumer is then replaced by the one
-- that the server answers, which is not nil either.
unfoldable pub update_consumer : Result ConsumerInfo → (Str → Ok) → Ok → Consumer → Ok
update_consumer info_reply stream_reply update_reply c =
    if is_usable c
    then elim info_reply [
      | err e ↦ err (wrap (str "failed to get consumer info") e)
      | ok info ↦ elim (stream_reply info.stream) [
        | err e ↦ err (wrap (str "failed to get stream") e)
        | ok u ↦ wrapped (str "failed to update consumer") update_reply
      ]
    ]
    else not_on_stream

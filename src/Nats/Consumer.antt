-- ===== src/Nats/Consumer.antt =====
-- The life of a consumer: internal/pkg/nats/consumer.go.
use nebengjek.Prelude.{str, Bool, true, false, ◌&&◌, if◌then◌else◌}
use nebengjek.Exec.{message, wrap, ok, err, Ok}

-- Which pointers are set, whether the library delivers messages to the handler, and whether the
-- context of the consumer was cancelled.
pub record Consumer : Type 0 where
  pub is_jet_stream : Bool
  pub has_consumer : Bool
  pub consume_ctx : Bool
  pub delivering : Bool
  pub subscription : Bool
  pub cancelled : Bool
  pub connected : Bool

abbrev pub is_usable : Consumer → Bool
is_usable c = c.is_jet_stream && c.has_consumer

abbrev pub not_jet_stream : Ok
not_jet_stream = err (message (str "not a JetStream consumer"))

-- `c.consumer.Consume`
abbrev pub consume : Ok → Consumer → Ok × Consumer
consume (ok u) c = (ok tt, record c { consume_ctx = true; delivering = true })
consume (err e) c = (err (wrap (str "failed to start consuming") e), c)

unfoldable pub start_consuming : Ok → Consumer → Ok × Consumer
start_consuming reply c = if is_usable c then consume reply c else (not_jet_stream, c)

-- The goroutine that waits for the context, when it runs on.
unfoldable pub watch : Consumer → Consumer
watch c = if c.cancelled && c.consume_ctx then record c { delivering = false } else c

unfoldable pub pause : Consumer → Consumer
pause c = if c.consume_ctx then record c { consume_ctx = false; delivering = false } else c

abbrev pub start_if_stopped : Ok → Consumer → Ok × Consumer
start_if_stopped reply c =
    if c.consume_ctx
    then (err (message (str "consumer is already running")), c)
    else start_consuming reply c

unfoldable pub resume : Ok → Consumer → Ok × Consumer
unfolding start_consuming
resume reply c = if is_usable c then start_if_stopped reply c else (not_jet_stream, c)

unfoldable pub stop : Consumer → Consumer
unfolding pause
stop c =
    let paused = pause c in
    record paused {
      subscription = false;
      cancelled = true;
      connected = c.is_jet_stream && c.connected;
    }

-- `subscription.IsValid()` is an argument.
unfoldable pub is_active : Bool → Consumer → Bool
is_active valid c = if c.is_jet_stream then c.consume_ctx else c.subscription && valid

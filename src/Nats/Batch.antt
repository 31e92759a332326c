-- ===== src/Nats/Batch.antt =====
-- How a message is acknowledged: the callback of `Consume` in internal/pkg/nats/client.go and
-- consumer.go, and ProcessBatch.
use nebengjek.Prelude.{Str, str, List, [], ◌∷◌}
use nebengjek.Exec.{Result, ok, err, Ok, Exec, pure, call, attempt, wrapping, ◌>>=◌, ◌>>◌}

-- A message, by its sequence number and its data.
abbrev pub Msg : Type 0
Msg = Str

pub data Call : Type 0 where
  fetch : Call
  handle : Msg → Call
  ack : Msg → Call
  nak : Msg → Call

abbrev pub History : Type 0
History = List Call

pub record Env : Type 0 where
  pub fetch_reply : History → Result (List Msg)
  -- what the handler of the service returns
  pub handle_reply : Msg → History → Ok
  pub ack_reply : Call → History → Ok

module _ (env : Env) where
  -- A failure to acknowledge is logged.
  abbrev pub acknowledge : Msg → Ok → Exec Call (Unit {0})
  acknowledge msg (ok u) = do attempt (call (ack msg) (env.ack_reply (ack msg))); pure tt
  acknowledge msg (err e) = do attempt (call (nak msg) (env.ack_reply (nak msg))); pure tt

  unfoldable pub consume_message : Msg → Exec Call (Unit {0})
  consume_message msg = do r ← attempt (call (handle msg) (env.handle_reply msg)); acknowledge msg r

  unfoldable pub process_messages : List Msg → Exec Call (Unit {0})
  process_messages [] = pure tt
  process_messages (msg ∷ msgs) = let rest = process_messages msgs in do consume_message msg; rest

  unfoldable pub process_batch : Exec Call (Unit {0})
  process_batch = do
    msgs ← wrapping (str "failed to fetch batch") (call fetch env.fetch_reply)
    process_messages msgs

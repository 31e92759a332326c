-- ===== src/Nats/Laws/Publishing.antt =====
-- What the gateways publish: services/match/gateway/nats/nats.go and its siblings.
use nebengjek.Prelude.{inl, inr, refl, Str, ◌∷◌, ◌++◌, ◌≡◌, ℕ, arith}
use nebengjek.Exec.{Result, ok, returned}
use nebengjek.Exec.Laws.{Result-cases}
use nebengjek.Nats.Publish.{Env, History, PublishOptions, now, publish_msg, publish_event}

-- A gateway that succeeds has encoded its event, read the clock once, and sent one message, which
-- the server has acknowledged.
pub publish_event_returned :
    (env : Env) (a b subject prefix id : Str) (timeout : ℕ) (json : Result Str) (t : History)
    → (publish_event env a b subject prefix id timeout json t).0 ≡ returned tt
    → (payload : Str) × (opts : PublishOptions) × (json ≡ ok payload)
      × (opts.subject ≡ subject)
      × (opts.payload ≡ payload)
      × (env.publish_reply opts (now ∷ t) ≡ ok tt)
      × ((publish_event env a b subject prefix id timeout json t).1 ≡ publish_msg opts ∷ now ∷ t)
unfolding publish_event
publish_event_returned env a b subject prefix id timeout json t h = elim (Result-cases json) [
  | inr (e, j) ↦ absurd (ground arith)
  | inl (payload, j) ↦
      let opts : PublishOptions = record {
        subject = subject;
        payload = payload;
        msg_id = prefix ++ (b'-' ∷ (id ++ (b'-' ∷ env.unix_nano t)));
        timeout = timeout;
      } in
      elim (Result-cases (env.publish_reply opts (now ∷ t))) [
        | inr (e, r) ↦ absurd (ground arith)
        | inl (u, r) ↦ (payload, opts, j, refl, refl, r, ground arith)
      ]
]

-- ===== src/Nats/Laws/Batches.antt =====
-- Every message of a batch is handled and answered once: ProcessBatch in
-- internal/pkg/nats/consumer.go.
use nebengjek.Prelude.{
  str, List, [], ◌∷◌, ◌++◌, reverse, reverse-cons, ◌≡◌, refl, ◌∙◌, ap, arith, inl, inr,
}
use nebengjek.Exec.{call, wrapping, ok, err, Error, returned}
use nebengjek.Exec.Laws.{bind-returned, Result-cases}
use nebengjek.Nats.Batch.{
  Msg, History, Env, fetch, handle, ack, nak, consume_message, process_messages, process_batch,
}

-- The messages that were answered, with or without success, the newest first.
unfoldable pub answered : History → List Msg
answered [] = []
answered (ack msg ∷ t) = msg ∷ answered t
answered (nak msg ∷ t) = msg ∷ answered t
answered (c ∷ t) = answered t

-- An acknowledgement directly follows a handling that succeeded, a negative one a handling that
-- failed, of the same message.
unfoldable pub IsFair : Env → History → Type 0
IsFair env [] = Unit
IsFair env (ack msg ∷ t) =
    (h : History) × (t ≡ handle msg ∷ h) × (env.handle_reply msg h ≡ ok tt) × IsFair env t
IsFair env (nak msg ∷ t) =
    (h : History) × (e : Error) × (t ≡ handle msg ∷ h)
    × (env.handle_reply msg h ≡ err e)
    × IsFair env t
IsFair env (c ∷ t) = IsFair env t

-- What is shown of a batch: it is answered in order, and stays fair.
abbrev Settled : Env → List Msg → History → History → Type 0
Settled env msgs t t' = (answered t' ≡ reverse msgs ++ answered t) × IsFair env t'

module _ (env : Env) where
  acked :
      (msg : Msg) (t : History)
      → env.handle_reply msg t ≡ ok tt
      → consume_message env msg t ≡ (returned tt, ack msg ∷ handle msg ∷ t)
  unfolding consume_message
  acked msg t h = elim (Result-cases (env.ack_reply (ack msg) (handle msg ∷ t))) [
    | inl (u, a) ↦ ground arith
    | inr (e, a) ↦ ground arith
  ]

  naked :
      (msg : Msg) (t : History) (x : Error)
      → env.handle_reply msg t ≡ err x
      → consume_message env msg t ≡ (returned tt, nak msg ∷ handle msg ∷ t)
  unfolding consume_message
  naked msg t x h = elim (Result-cases (env.ack_reply (nak msg) (handle msg ∷ t))) [
    | inl (u, a) ↦ ground arith
    | inr (e, a) ↦ ground arith
  ]

  one-Settled :
      (msg : Msg) (t : History)
      → IsFair env t
      → ((consume_message env msg t).0 ≡ returned tt)
        × Settled env (msg ∷ []) t (consume_message env msg t).1
  unfolding answered IsFair
  one-Settled msg t f = elim (Result-cases (env.handle_reply msg t)) [
    | inl (u, a) ↦ rw (acked msg t a) (refl, (refl, (t, refl, a, f)))
    | inr (e, a) ↦ rw (naked msg t e a) (refl, (refl, (t, e, refl, a, f)))
  ]

  all-Settled :
      (msgs : List Msg) (t : History)
      → IsFair env t
      → ((process_messages env msgs t).0 ≡ returned tt)
        × Settled env msgs t (process_messages env msgs t).1
  unfolding process_messages
  all-Settled [] t f = (refl, (refl, f))
  all-Settled (msg ∷ msgs) t f =
      let (r, (a, g)) = one-Settled msg t f in
      let t1 = (consume_message env msg t).1 in
      let (r', (a', g')) = all-Settled msgs t1 g in
      rw (bind-returned (consume_message env msg) (λ u. process_messages env msgs) t tt r)
        (r', (a' ∙ (ap (λ xs. reverse msgs ++ xs) a ∙ reverse-cons msg msgs (answered t)), g'))

  -- A batch that was fetched is processed to its end: each of its messages is answered once, in
  -- order, with an acknowledgement directly after its handling has succeeded, or with a negative
  -- one directly after it has failed.
  pub batch_settled :
      (msgs : List Msg) (t : History)
      → env.fetch_reply t ≡ ok msgs
      → IsFair env t
      → ((process_batch env t).0 ≡ returned tt)
        × (answered (process_batch env t).1 ≡ reverse msgs ++ answered t)
        × IsFair env (process_batch env t).1
  unfolding process_batch answered IsFair
  batch_settled msgs t e f =
      let got = wrapping (str "failed to fetch batch") (call fetch env.fetch_reply) in
      let (r, (a, g)) = all-Settled msgs (fetch ∷ t) f in
      rw (bind-returned got (process_messages env) t msgs (ground arith)) (r, a, g)

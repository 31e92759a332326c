-- ===== src/Users/Laws/Notices.antt =====
-- Who is told what when a message comes from NATS: services/users/handler/nats.
use nebengjek.Users.Handler.{
  handle_match_event, handle_match_acc_event, handle_match_rejected_event, handle_ride_pickup_event,
  handle_ride_start_event, handle_ride_completed_event, notify_both,
}
use nebengjek.Users.Deliveries.{
  match_found_users, match_accepted_users, match_rejected_users, ride_pickup_users,
  ride_started_users, ride_completed_users, handle_event, Topic, of_match, of_ride, match_consumer,
  ride_consumer, handle_match_event_js, handle_match_acc_event_js, handle_match_rejected_event_js,
  handle_ride_pickup_event_js, handle_ride_start_event_js, handle_ride_completed_event_js,
}
use nebengjek.Prelude.{subst, sym, ap, ◌∙◌, none, Bool, true, false}
use nebengjek.Exec.{Result, ok, err, returned, panicked}
use nebengjek.Prelude.{
  arith, inr, inl, Option-cases, str, ◌≡◌, some, ◌++◌, ◌∷◌, Str, List, Option, refl, [],
}
use nebengjek.Users.Env.{ws_send, Conn, Env, History}
use nebengjek.Users.Socket.Clients.{client_of, clients_after, notify_client, Clients}
use nebengjek.Domain.Users.{WsMessage}
use nebengjek.Exec.Laws.{bind-returned, Result-cases}
use mathlib.Core.List.{append_assoc}

-- What a message says: who is to be told, in order, under which event, and the data as they are
-- encoded.
pub record Notice : Type 0 where
  pub users : List Str
  pub event : Str
  pub raw : Result Str

abbrev mapped : {A B : Type 0} → Result A → (A → B) → Result B
mapped (ok a) f = ok (f a)
mapped (err e) f = err e

from-mapped :
    {A B : Type 0} (r : Result A) (f : A → B) (b : B)
    → mapped r f ≡ ok b
    → (P : B → Type 0) → ((a : A) → r ≡ ok a → P (f a))
    → P b
from-mapped (ok a) f b h P k = subst P (ground arith) (k a refl)
from-mapped (err e) f b h P k = absurd (ground arith)

-- Who takes part in a match or a ride, and the event that the clients know.
unfoldable pub notice_of : Env → Topic → Str → Result Notice
notice_of env (of_match match_found_users) msg = mapped (env.json.decode_proposal msg) λ p. record {
  users = p.driver_id ∷ p.passenger_id ∷ [];
  event = str "match.found";
  raw = env.json.encode_proposal p;
}
notice_of env (of_match match_accepted_users) msg = mapped (env.json.decode_proposal msg) λ p.
    record {
      users = p.driver_id ∷ p.passenger_id ∷ [];
      event = str "match.accepted";
      raw = env.json.encode_proposal p;
    }
notice_of env (of_match match_rejected_users) msg = mapped (env.json.decode_proposal msg) λ p.
    record {
      users = p.driver_id ∷ [];
      event = str "match_rejected";
      raw = env.json.encode_proposal p;
    }
notice_of env (of_ride ride_pickup_users) msg = mapped (env.json.decode_ride_resp msg) λ r. record {
  users = r.driver_id ∷ r.passenger_id ∷ [];
  event = str "ride_pickup";
  raw = env.json.encode_ride_resp r;
}
notice_of env (of_ride ride_started_users) msg = mapped (env.json.decode_ride_resp msg) λ r.
    record {
      users = r.driver_id ∷ r.passenger_id ∷ [];
      event = str "ride_started";
      raw = env.json.encode_ride_resp r;
    }
notice_of env (of_ride ride_completed_users) msg = mapped (env.json.decode_ride_complete msg) λ c.
    record {
      users = env.uuid_string c.ride.driver_id ∷ env.uuid_string c.ride.passenger_id ∷ [];
      event = str "ride_completed";
      raw = env.json.encode_ride_complete c;
    }

-- The messages that were sent over sockets, the newest first.
unfoldable pub sent : History → List (Conn × WsMessage)
sent [] = []
sent (ws_send ws msg ∷ t) = (ws, msg) ∷ sent t
sent (c ∷ t) = sent t

-- To a user who is connected.
unfoldable pub delivery : Option Conn → Str → Result Str → List (Conn × WsMessage)
delivery none event raw = []
delivery (some ws) event (err e) = []
delivery (some ws) event (ok raw) = (ws, record { event = event; payload = raw }) ∷ []

-- To each of some users who is connected, the last one first.
unfoldable pub deliveries : Clients → List Str → Str → Result Str → List (Conn × WsMessage)
unfolding delivery
deliveries clients [] event raw = []
deliveries clients (u ∷ us) event raw =
    deliveries clients us event raw ++ delivery (client_of u clients) event raw

-- Without metadata the handler of completed rides panics.
abbrev pub is_lost : Topic → Option (Unit {0}) → Bool
is_lost (of_ride ride_completed_users) none = true
is_lost (of_ride ride_completed_users) (some u) = false
is_lost (of_ride ride_pickup_users) metadata = false
is_lost (of_ride ride_started_users) metadata = false
is_lost (of_match consumer) metadata = false

module _ (env : Env) where
  -- What one notification does.
  notified :
      (u event : Str) (raw : Result Str) (t : History)
      → ((notify_client env u event raw t).0 ≡ returned tt)
        × (clients_after (notify_client env u event raw t).1 ≡ clients_after t)
        × (sent (notify_client env u event raw t).1
            ≡ delivery (client_of u (clients_after t)) event raw ++ sent t)
  unfolding notify_client clients_after sent delivery
  notified u event raw t = elim (Option-cases (client_of u (clients_after t))) [
    | inl n ↦ rw n (refl, refl, refl)
    | inr (ws, s) ↦ elim (Result-cases raw) [
      | inr (e, r) ↦ rw (s, r) (refl, refl, refl)
      | inl (d, r) ↦
          let msg : WsMessage = record { event = event; payload = d } in
          elim (Result-cases (env.reply (ws_send ws msg) t)) [
            | inl (v, w) ↦ ground arith
            | inr (e, w) ↦ ground arith
          ]
    ]
  ]

  -- What a message does: nothing but the sending of its notice.
  abbrev IsTold : Notice → Topic → Option (Unit {0}) → Str → History → Type 0
  IsTold n topic metadata msg t =
      ((handle_event env topic metadata msg t).0 ≡ returned tt)
      × (sent (handle_event env topic metadata msg t).1
          ≡ deliveries (clients_after t) n.users n.event n.raw ++ sent t)

  one-IsTold :
      (topic : Topic) (metadata : Option (Unit {0})) (msg u event : Str) (raw : Result Str)
      (t : History)
      → handle_event env topic metadata msg t ≡ notify_client env u event raw t
      → IsTold (record { users = u ∷ []; event = event; raw = raw }) topic metadata msg t
  unfolding deliveries
  one-IsTold topic metadata msg u event raw t e =
      let (r, c, s) = notified u event raw t in rw e (r, s)

  both-IsTold :
      (topic : Topic) (metadata : Option (Unit {0})) (msg d p event : Str) (raw : Result Str)
      (t : History)
      → handle_event env topic metadata msg t ≡ notify_both env d p event raw t
      → IsTold (record { users = d ∷ p ∷ []; event = event; raw = raw }) topic metadata msg t
  unfolding deliveries notify_both
  both-IsTold topic metadata msg d p event raw t e =
      let t1 = (notify_client env d event raw t).1 in
      let (r, c, s) = notified d event raw t in
      let (r', c', s') = notified p event raw t1 in
      rw
        (
          e,
          bind-returned (notify_client env d event raw) (λ u. notify_client env p event raw) t tt r,
        )
        (
          r',
          s'
              ∙ (ap (λ cs. delivery (client_of p cs) event raw ++ sent t1) c
                  ∙ (ap (λ xs. delivery (client_of p (clients_after t)) event raw ++ xs) s
                      ∙ sym (
                          append_assoc (delivery (client_of p (clients_after t)) event raw)
                            (delivery (client_of d (clients_after t)) event raw) (sent t)))),
        )

  -- A message from NATS that can be decoded is acknowledged by the handler that is registered for its
  -- consumer, and what it says is sent to the users whom it is for, in order, over the sockets that
  -- they have registered, and nothing else is sent. This is for a message with metadata, unless it is
  -- not about a completed ride, where the metadata are not needed.
  pub handle_event_told :
      (topic : Topic) (metadata : Option (Unit {0})) (msg : Str) (t : History) (n : Notice)
      → notice_of env topic msg ≡ ok n
      → is_lost topic metadata ≡ false
      → ((handle_event env topic metadata msg t).0 ≡ returned tt)
        × (sent (handle_event env topic metadata msg t).1
            ≡ deliveries (clients_after t) n.users n.event n.raw ++ sent t)
  unfolding notice_of handle_event handle_match_event handle_match_acc_event
      handle_match_rejected_event handle_ride_pickup_event handle_ride_start_event
      handle_ride_completed_event match_consumer ride_consumer handle_match_event_js
      handle_match_acc_event_js handle_match_rejected_event_js handle_ride_pickup_event_js
      handle_ride_start_event_js handle_ride_completed_event_js
  handle_event_told (of_match match_found_users) metadata msg t n h k =
      from-mapped (env.json.decode_proposal msg) _ n h
        (λ x. IsTold x (of_match match_found_users) metadata msg t)
        (λ p d.
          both-IsTold (of_match match_found_users) metadata msg p.driver_id p.passenger_id
            (str "match.found") (env.json.encode_proposal p) t (rw d refl))
  handle_event_told (of_match match_accepted_users) metadata msg t n h k =
      from-mapped (env.json.decode_proposal msg) _ n h
        (λ x. IsTold x (of_match match_accepted_users) metadata msg t)
        (λ p d.
          both-IsTold (of_match match_accepted_users) metadata msg p.driver_id p.passenger_id
            (str "match.accepted") (env.json.encode_proposal p) t (rw d refl))
  handle_event_told (of_match match_rejected_users) metadata msg t n h k =
      from-mapped (env.json.decode_proposal msg) _ n h
        (λ x. IsTold x (of_match match_rejected_users) metadata msg t)
        (λ p d.
          one-IsTold (of_match match_rejected_users) metadata msg p.driver_id (str "match_rejected")
            (env.json.encode_proposal p) t (rw d refl))
  handle_event_told (of_ride ride_pickup_users) metadata msg t n h k =
      from-mapped (env.json.decode_ride_resp msg) _ n h
        (λ x. IsTold x (of_ride ride_pickup_users) metadata msg t)
        (λ r d.
          both-IsTold (of_ride ride_pickup_users) metadata msg r.driver_id r.passenger_id
            (str "ride_pickup") (env.json.encode_ride_resp r) t (rw d refl))
  handle_event_told (of_ride ride_started_users) metadata msg t n h k =
      from-mapped (env.json.decode_ride_resp msg) _ n h
        (λ x. IsTold x (of_ride ride_started_users) metadata msg t)
        (λ r d.
          both-IsTold (of_ride ride_started_users) metadata msg r.driver_id r.passenger_id
            (str "ride_started") (env.json.encode_ride_resp r) t (rw d refl))
  handle_event_told (of_ride ride_completed_users) none msg t n h k = absurd (ground arith)
  handle_event_told (of_ride ride_completed_users) (some u) msg t n h k =
      from-mapped (env.json.decode_ride_complete msg) _ n h
        (λ x. IsTold x (of_ride ride_completed_users) (some u) msg t)
        (λ c d.
          both-IsTold (of_ride ride_completed_users) (some u) msg (env.uuid_string c.ride.driver_id)
            (env.uuid_string c.ride.passenger_id) (str "ride_completed")
            (env.json.encode_ride_complete c) t (rw d refl))

  -- A completed ride without metadata is told to nobody: its handler panics.
  pub lost_panics :
      (msg : Str) (t : History)
      → handle_event env (of_ride ride_completed_users) none msg t ≡ (panicked, t)
  unfolding handle_event ride_consumer handle_ride_completed_event_js
  lost_panics msg t = refl

-- ===== src/Tests/Queues.antt =====
-- The theorems about the NATS client at concrete inputs.
use nebengjek.Prelude.{
  ℕ, false, ◌⊎◌, true, All, Str, some, select, str, str_eq, List, [], ◌∷◌, ◌++◌, reverse, ◌≡◌, refl,
  if◌then◌else◌,
}
use nebengjek.Exec.{Error, Ok, ok, err, external, returned}
use nebengjek.Nats.Batch.{Env, Msg, process_batch}
use nebengjek.Nats.Laws.Batches.{answered, IsFair, batch_settled}
use nebengjek.Nats.Client.{key_of, has, Client}
use nebengjek.Nats.Laws.Streams.{Op, put_stream, put_consumer, drop_stream, run, IsTied, run-IsTied}
use nebengjek.Nats.Setup.{initialize_default_streams}
use nebengjek.Nats.Session.{new_client, no_maps}
use nebengjek.Nats.Laws.Opening.{new_client-open, IsReady}
use nebengjek.Nats.Laws.Startup.{services-Start, Starts}
use nebengjek.Nats.Startup.{
  init_ride_consumers, init_match_consumers, init_consumers, init_location, init_rides, init_match,
}
use nebengjek.Nats.Defaults.{
  match_found_users, match_accepted_users, match_rejected_users, ride_pickup_users,
  ride_started_users, ride_completed_users, location_update_location, match_accepted_rides,
  location_aggregate_rides, user_beacon_match, user_finder_match, ride_pickup_match,
  ride_completed_match,
}

abbrev first : Msg
first = str "pickup"

abbrev second : Msg
second = str "invalid"

-- The second message is fetched but not handled.
abbrev messages_env : Env
messages_env = record {
  fetch_reply = λ t. ok (first ∷ second ∷ []);
  handle_reply = λ m t. if str_eq m second then err (external (str "json")) else ok tt;
  ack_reply = λ c t. ok tt;
}

nothing-IsFair : IsFair messages_env []
unfolding IsFair
nothing-IsFair = tt

batch_settled_example :
    ((process_batch messages_env []).0 ≡ returned tt)
    × (answered (process_batch messages_env []).1 ≡ reverse (first ∷ second ∷ []) ++ answered [])
    × IsFair messages_env (process_batch messages_env []).1
batch_settled_example = batch_settled messages_env (first ∷ second ∷ []) [] refl nothing-IsFair

abbrev empty : Client
empty = record { streams = []; consumers = [] }

abbrev ops : List Op
ops =
    put_stream (ok tt) (str "MATCH")
    ∷ put_stream (ok tt) (str "RIDE")
    ∷ put_consumer (ok tt) (str "MATCH") (str "match_found_users")
    ∷ put_consumer (ok tt) (str "RIDE") (str "ride_pickup_users")
    ∷ drop_stream (ok tt) (str "MATCH")
    ∷ []

abbrev only_rides : Client
only_rides = record { streams = str "RIDE" ∷ []; consumers = str "RIDE:ride_pickup_users" ∷ [] }

runs : run ops empty ≡ some only_rides
unfolding run select str nebengjek.Nats.Client.delete_stream nebengjek.Nats.Client.has
    nebengjek.Nats.Client.create_consumer nebengjek.Nats.Client.create_or_update_stream str_eq
    nebengjek.Nats.Client.without nebengjek.Nats.Client.some_short
    nebengjek.Nats.Client.without_stream nebengjek.Prelude.has_prefix
runs = refl

run-IsTied_example : IsTied only_rides
run-IsTied_example = run-IsTied ops empty only_rides tt runs

abbrev accepting : Str → Ok
accepting s = ok tt

abbrev accepting_all : Str → Str → Ok
accepting_all s k = ok tt

abbrev opened : Client
unfolding initialize_default_streams
opened = (initialize_default_streams accepting no_maps).1

opens : (new_client (ok tt) (ok tt) accepting).0 ≡ ok opened
unfolding new_client initialize_default_streams
opens = refl

-- Handlers are numbers.
services-Start_example :
    Starts {H = ℕ} (init_match accepting_all accepting 1 2 3 4) opened (
      (ride_completed_match, 4)
      ∷ (ride_pickup_match, 3)
      ∷ (user_finder_match, 2)
      ∷ (user_beacon_match, 1)
      ∷ [])
    × Starts {H = ℕ}
        (init_rides accepting_all accepting 1 2)
        opened
        ((location_aggregate_rides, 2) ∷ (match_accepted_rides, 1) ∷ [])
    × Starts {H = ℕ}
        (init_location accepting_all accepting 1)
        opened
        ((location_update_location, 1) ∷ [])
    × Starts {H = ℕ}
        (init_consumers
          (init_match_consumers accepting_all accepting 1 2 3)
          (init_ride_consumers accepting_all accepting 4 5 6))
        opened
        ((ride_completed_users, 6)
          ∷ (ride_started_users, 5)
          ∷ (ride_pickup_users, 4)
          ∷ (match_rejected_users, 3)
          ∷ (match_accepted_users, 2)
          ∷ (match_found_users, 1)
          ∷ [])
services-Start_example =
    services-Start accepting_all accepting (λ s k. refl) (λ k. refl) (ok tt) (ok tt) accepting
      opened opens 1 2 3 4 5 6

new_client-open_example :
    ((c : Client) × (new_client (ok tt) (ok tt) accepting ≡ (ok c, true)) × IsReady c)
    ⊎ ((e : Error) × (new_client (ok tt) (ok tt) accepting ≡ (err e, false)))
new_client-open_example = new_client-open (ok tt) (ok tt) accepting

-- ===== src/Nats/Laws/Startup.antt =====
-- Every service consumes what it asks for, once a client was made: the functions that are modelled
-- in Nats.Startup and NewClient.
use nebengjek.Prelude.{◌∙◌, ap, map, List, true, ◌∷◌, ◌≡◌, refl, [], Str}
use nebengjek.Exec.{ok, Ok}
use nebengjek.Nats.Laws.Defaults.{has-first, with_consumer}
use nebengjek.Nats.Client.{recreate_consumer, create_consumer, has, key_of, without, Client}
use nebengjek.Nats.Session.{consume_messages, Session, new_client}
use nebengjek.Nats.Defaults.{
  match_found_users, match_accepted_users, match_rejected_users, ride_pickup_users,
  ride_started_users, ride_completed_users, user_beacon_match, user_finder_match, ride_pickup_match,
  match_accepted_rides, ride_completed_match, location_aggregate_rides, location_update_location,
  default_stream_configs, ConsumerConfig,
}
use nebengjek.Nats.Startup.{
  init_ride_consumers, init_match_consumers, init_consumers, init_location, init_match, init_rides,
  before, Step, consumed, created, recreated,
}
use nebengjek.Nats.Laws.Opening.{IsReady, new_client-IsReady}

abbrev pub key : ConsumerConfig → Str
key k = key_of k.stream_name k.consumer_name

abbrev pub fresh : {H : Type 0} → Client → Session H
fresh c = record { client = c; consuming = [] }

module _ {H : Type 0} where
  -- The consumer is made, and its messages go to the handler.
  abbrev with_handler : ConsumerConfig → H → Session H → Session H
  with_handler k h s = record {
    client = with_consumer k s.client;
    consuming = (key k, h) ∷ s.consuming;
  }

  abbrev dropped : ConsumerConfig → Session H → Session H
  dropped k s = record s {
    client = record { streams = s.client.streams; consumers = without (key k) s.client.consumers };
  }

  -- A step succeeds on a client without handlers, and leaves these handlers, newest first.
  abbrev pub Starts : Step H → Client → List (ConsumerConfig × H) → Type 0
  Starts step c handlers =
      ((step (fresh c)).0 ≡ ok tt)
      × ((step (fresh c)).1.consuming ≡ map (λ p. (key p.0, p.1)) handlers)

  by_end :
      (step : Step H) (c : Client) (handlers : List (ConsumerConfig × H)) (s : Session H)
      → step (fresh c) ≡ (ok tt, s)
      → s.consuming ≡ map (λ p. (key p.0, p.1)) handlers
      → Starts step c handlers
  by_end step c handlers s e h = (ap (λ r. r.0) e, ap (λ r. r.1.consuming) e ∙ h)

  both-next :
      (first second : Step H) (s s' s'' : Session H)
      → first s ≡ (ok tt, s')
      → second s' ≡ (ok tt, s'')
      → init_consumers first second s ≡ (ok tt, s'')
  unfolding init_consumers before
  both-next first second s s' s'' e e' = rw (e, e') refl

module _ {H : Type 0} (create_reply : Str → Str → Ok) (consume_reply : Str → Ok)
    (accepts : (s k : Str) → create_reply s k ≡ ok tt)
    (delivers : (key : Str) → consume_reply key ≡ ok tt) where
  created-next :
      (w w' : Str) (k : ConsumerConfig) (h : H) (next : Step H) (s : Session H)
      → has k.stream_name s.client.streams ≡ true
      → before
          (created create_reply w k)
          (before (consumed create_reply consume_reply w' k.stream_name k.consumer_name h) next)
          s
        ≡ next (with_handler k h s)
  unfolding before created consumed create_consumer consume_messages
  created-next w w' k h next s p =
      rw
        (
          p,
          accepts k.stream_name k.consumer_name,
          has-first (key k) (without (key k) s.client.consumers),
          delivers (key k),
        )
        refl

  recreated-next :
      (w w' : Str) (k : ConsumerConfig) (h : H) (next : Step H) (s : Session H)
      → has k.stream_name s.client.streams ≡ true
      → before
          (recreated create_reply w k)
          (before (consumed create_reply consume_reply w' k.stream_name k.consumer_name h) next)
          s
        ≡ next (with_handler k h (dropped k s))
  unfolding before recreated consumed create_consumer recreate_consumer consume_messages
  recreated-next w w' k h next s p =
      rw
        (
          p,
          accepts k.stream_name k.consumer_name,
          has-first (key k) (without (key k) (without (key k) s.client.consumers)),
          delivers (key k),
        )
        refl

  location-Starts :
      (c : Client) (ready : IsReady c) (h : H)
      → Starts (init_location create_reply consume_reply h) c ((location_update_location, h) ∷ [])
  unfolding init_location default_stream_configs
  location-Starts c (u, (m, (r, (l, done)))) h =
      let s1 = with_handler location_update_location h (fresh c) in
      let done : init_location create_reply consume_reply h (fresh c) ≡ (ok tt, s1) =
        created-next _ _ location_update_location h _ (fresh c) l in
      by_end (init_location create_reply consume_reply h) c ((location_update_location, h) ∷ []) s1
        done refl

  rides-Starts :
      (c : Client) (ready : IsReady c) (a g : H)
      → Starts
          (init_rides create_reply consume_reply a g)
          c
          ((location_aggregate_rides, g) ∷ (match_accepted_rides, a) ∷ [])
  unfolding init_rides default_stream_configs
  rides-Starts c (u, (m, (r, (l, done)))) a g =
      let s1 = with_handler match_accepted_rides a (fresh c) in
      let s2 = with_handler location_aggregate_rides g s1 in
      let done : init_rides create_reply consume_reply a g (fresh c) ≡ (ok tt, s2) =
        created-next _ _ match_accepted_rides a _ (fresh c) m
        ∙ created-next _ _ location_aggregate_rides g _ s1 l in
      by_end (init_rides create_reply consume_reply a g) c
        ((location_aggregate_rides, g) ∷ (match_accepted_rides, a) ∷ []) s2 done refl

  match-Starts :
      (c : Client) (ready : IsReady c) (b f p d : H)
      → Starts (init_match create_reply consume_reply b f p d) c (
          (ride_completed_match, d)
          ∷ (ride_pickup_match, p)
          ∷ (user_finder_match, f)
          ∷ (user_beacon_match, b)
          ∷ [])
  unfolding init_match default_stream_configs
  match-Starts c (u, (m, (r, (l, done)))) b f p d =
      let s1 = with_handler user_beacon_match b (fresh c) in
      let s2 = with_handler user_finder_match f s1 in
      let s3 = with_handler ride_pickup_match p (dropped ride_pickup_match s2) in
      let s4 = with_handler ride_completed_match d (dropped ride_completed_match s3) in
      let done : init_match create_reply consume_reply b f p d (fresh c) ≡ (ok tt, s4) =
        created-next _ _ user_beacon_match b _ (fresh c) u
        ∙ created-next _ _ user_finder_match f _ s1 u
        ∙ recreated-next _ _ ride_pickup_match p _ s2 r
        ∙ recreated-next _ _ ride_completed_match d _ s3 r in
      by_end (init_match create_reply consume_reply b f p d) c
        ((ride_completed_match, d)
          ∷ (ride_pickup_match, p)
          ∷ (user_finder_match, f)
          ∷ (user_beacon_match, b)
          ∷ [])
        s4 done refl

  users-Starts :
      (c : Client) (ready : IsReady c) (f a j p s d : H)
      → Starts
          (init_consumers
            (init_match_consumers create_reply consume_reply f a j)
            (init_ride_consumers create_reply consume_reply p s d))
          c
          ((ride_completed_users, d)
            ∷ (ride_started_users, s)
            ∷ (ride_pickup_users, p)
            ∷ (match_rejected_users, j)
            ∷ (match_accepted_users, a)
            ∷ (match_found_users, f)
            ∷ [])
  unfolding init_match_consumers init_ride_consumers default_stream_configs
  users-Starts c (u, (m, (r, (l, done)))) f a j p s d =
      let s1 = with_handler match_found_users f (fresh c) in
      let s2 = with_handler match_accepted_users a s1 in
      let s3 = with_handler match_rejected_users j s2 in
      let s4 = with_handler ride_pickup_users p (dropped ride_pickup_users s3) in
      let s5 = with_handler ride_started_users s (dropped ride_started_users s4) in
      let s6 = with_handler ride_completed_users d (dropped ride_completed_users s5) in
      let matches = init_match_consumers create_reply consume_reply f a j in
      let rides = init_ride_consumers create_reply consume_reply p s d in
      let e : matches (fresh c) ≡ (ok tt, s3) =
        created-next _ _ match_found_users f _ (fresh c) m
        ∙ created-next _ _ match_accepted_users a _ s1 m
        ∙ created-next _ _ match_rejected_users j _ s2 m in
      let e' : rides s3 ≡ (ok tt, s6) =
        recreated-next _ _ ride_pickup_users p _ s3 r
        ∙ recreated-next _ _ ride_started_users s _ s4 r
        ∙ recreated-next _ _ ride_completed_users d _ s5 r in
      by_end (init_consumers matches rides) c
        ((ride_completed_users, d)
          ∷ (ride_started_users, s)
          ∷ (ride_pickup_users, p)
          ∷ (match_rejected_users, j)
          ∷ (match_accepted_users, a)
          ∷ (match_found_users, f)
          ∷ [])
        s6 (both-next matches rides (fresh c) s3 s6 e e') refl

  -- After NewClient has returned a client, and if the server accepts every consumer and delivers to
  -- it, the start of each of the four services succeeds, and each of its consumers delivers to the
  -- handler that is meant for it: none is refused for a stream or a consumer that is missing.
  pub services-Start :
      (connect js : Ok) (stream_reply : Str → Ok) (c : Client)
      → (new_client connect js stream_reply).0 ≡ ok c
      → (h1 h2 h3 h4 h5 h6 : H)
      → Starts (init_match create_reply consume_reply h1 h2 h3 h4) c (
          (ride_completed_match, h4)
          ∷ (ride_pickup_match, h3)
          ∷ (user_finder_match, h2)
          ∷ (user_beacon_match, h1)
          ∷ [])
        × Starts
            (init_rides create_reply consume_reply h1 h2)
            c
            ((location_aggregate_rides, h2) ∷ (match_accepted_rides, h1) ∷ [])
        × Starts
            (init_location create_reply consume_reply h1)
            c
            ((location_update_location, h1) ∷ [])
        × Starts
            (init_consumers
              (init_match_consumers create_reply consume_reply h1 h2 h3)
              (init_ride_consumers create_reply consume_reply h4 h5 h6))
            c
            ((ride_completed_users, h6)
              ∷ (ride_started_users, h5)
              ∷ (ride_pickup_users, h4)
              ∷ (match_rejected_users, h3)
              ∷ (match_accepted_users, h2)
              ∷ (match_found_users, h1)
              ∷ [])
  services-Start connect js stream_reply c made h1 h2 h3 h4 h5 h6 =
      let ready = new_client-IsReady connect js stream_reply c made in
      (
        match-Starts c ready h1 h2 h3 h4,
        rides-Starts c ready h1 h2,
        location-Starts c ready h1,
        users-Starts c ready h1 h2 h3 h4 h5 h6,
      )

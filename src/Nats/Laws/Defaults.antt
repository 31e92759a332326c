-- ===== src/Nats/Laws/Defaults.antt =====
-- The default streams and consumers belong together: internal/pkg/nats/jetstream_helpers.go.
use nebengjek.Prelude.{
  subst, ◌++◌, ◌∙◌, ap, sym, str_eq_iff, Str, str, str_eq, List, [], ◌∷◌, ◌≡◌, refl, All, true,
  Bool-cases, inl, inr, arith,
}
use nebengjek.Exec.{wrap, err, Error, Ok, ok}
use nebengjek.Exec.Laws.{Result-cases}
use nebengjek.Nats.Client.{Client, has, without, key_of, create_or_update_stream, create_consumer}
use nebengjek.Nats.Laws.Streams.{has-put}
use nebengjek.Nats.Defaults.{
  StreamConfig, default_consumer_configs, ConsumerConfig, default_stream_configs,
}
use nebengjek.Nats.Setup.{
  create_default_consumers_for_service, create_consumers, initialize_default_streams,
  relevant_configs, get_stream_for_subject, create_streams,
}

-- The subject of a default consumer is one of the stream that it consumes.
subjects-agree :
    All (λ k. get_stream_for_subject k.filter_subject ≡ k.stream_name) default_consumer_configs
unfolding default_consumer_configs get_stream_for_subject str_eq str
subjects-agree = (
  refl,
  (
    refl,
    (
      refl,
      (
        refl,
        (refl, (refl, (refl, (refl, (refl, (refl, (refl, (refl, (refl, (refl, (refl, tt))))))))))),
      ),
    ),
  ),
)

pub has-first : (name : Str) (names : List Str) → has name (name ∷ names) ≡ true
unfolding has
has-first name names = grind (arith, str_eq_iff name name)

abbrev with_stream : Str → Client → Client
with_stream name c = record { streams = name ∷ without name c.streams; consumers = c.consumers }

streams-next :
    (reply : Str → Ok) (x : StreamConfig) (ss : List StreamConfig) (c : Client)
    → reply x.name ≡ ok tt
    → create_streams reply (x ∷ ss) c ≡ create_streams reply ss (with_stream x.name c)
unfolding create_streams create_or_update_stream
streams-next reply x ss c r = ground arith

streams-fail :
    (reply : Str → Ok) (x : StreamConfig) (ss : List StreamConfig) (c : Client) (e : Error)
    → reply x.name ≡ err e
    → create_streams reply (x ∷ ss) c ≡ (
      err (
          wrap
            (str "failed to create stream " ++ x.name)
            (wrap (str "failed to create/update stream") e)),
      c,
    )
unfolding create_streams create_or_update_stream
streams-fail reply x ss c e r = ground arith

streams-kept :
    (reply : Str → Ok) (ss : List StreamConfig) (c : Client) (s : Str)
    → has s c.streams ≡ true
    → has s (create_streams reply ss c).1.streams ≡ true
unfolding create_streams
streams-kept reply [] c s h = h
streams-kept reply (x ∷ ss) c s h = elim (Result-cases (reply x.name)) [
  | inr (e, r) ↦ subst (λ m. has s m.1.streams ≡ true) (sym (streams-fail reply x ss c e r)) h
  | inl (u, r) ↦
      subst (λ m. has s m.1.streams ≡ true) (sym (streams-next reply x ss c r))
        (streams-kept reply ss (with_stream x.name c) s (has-put x.name s c.streams h))
]

pub streams-made :
    (reply : Str → Ok) (ss : List StreamConfig) (c : Client)
    → (create_streams reply ss c).0 ≡ ok tt
    → All (λ s. has s.name (create_streams reply ss c).1.streams ≡ true) ss
streams-made reply [] c h = tt
streams-made reply (x ∷ ss) c h = elim (Result-cases (reply x.name)) [
  | inr (e, r) ↦ absurd (ground (arith, streams-fail reply x ss c e r))
  | inl (u, r) ↦
      let made = with_stream x.name c in
      let next = streams-next reply x ss c r in
      subst (λ m. All (λ s. has s.name m.1.streams ≡ true) (x ∷ ss)) (sym next)
        (
          streams-kept reply ss made x.name (has-first x.name (without x.name c.streams)),
          streams-made reply ss made (sym (ap (λ m. m.0) next) ∙ h),
        )
]

-- A consumer that is asked for after its stream was created is kept.
abbrev IsKnown : List Str → ConsumerConfig → Type 0
IsKnown streams k = has k.stream_name streams ≡ true

abbrev IsCreated : List Str → ConsumerConfig → Type 0
IsCreated consumers k = has (key_of k.stream_name k.consumer_name) consumers ≡ true

relevant-IsKnown :
    (streams : List Str) (service_name : Str)
    → All (λ s. has s.name streams ≡ true) default_stream_configs
    → All (IsKnown streams) (relevant_configs service_name)
unfolding default_stream_configs relevant_configs
relevant-IsKnown streams service_name (u, (m, (r, (l, done)))) =
    elim (Bool-cases (str_eq service_name (str "users"))) [
      | inl y ↦ rw y (u, (u, (m, (m, (m, (r, (r, (r, tt))))))))
      | inr n ↦ elim (Bool-cases (str_eq service_name (str "match"))) [
        | inl y ↦ rw (n, y) (u, (u, (r, (r, tt))))
        | inr n' ↦ elim (Bool-cases (str_eq service_name (str "rides"))) [
          | inl y ↦ rw (n, n', y) (m, (l, tt))
          | inr n'' ↦ elim (Bool-cases (str_eq service_name (str "location"))) [
            | inl y ↦ rw (n, n', n'', y) (l, tt)
            | inr n3 ↦ rw (n, n', n'', n3) tt
          ]
        ]
      ]
    ]

abbrev pub with_consumer : ConsumerConfig → Client → Client
with_consumer k c = record {
  streams = c.streams;
  consumers =
      key_of k.stream_name k.consumer_name
      ∷ without (key_of k.stream_name k.consumer_name) c.consumers;
}

consumers-next :
    (reply : Str → Str → Ok) (k : ConsumerConfig) (ks : List ConsumerConfig) (c : Client)
    → IsKnown c.streams k
    → reply k.stream_name k.consumer_name ≡ ok tt
    → create_consumers reply (k ∷ ks) c ≡ create_consumers reply ks (with_consumer k c)
unfolding create_consumers create_consumer
consumers-next reply k ks c h r = ground arith

consumers-kept :
    (reply : Str → Str → Ok) (ks : List ConsumerConfig) (c : Client) (key : Str)
    → ((s k : Str) → reply s k ≡ ok tt)
    → All (IsKnown c.streams) ks
    → has key c.consumers ≡ true
    → has key (create_consumers reply ks c).1.consumers ≡ true
unfolding create_consumers
consumers-kept reply [] c key r u h = h
consumers-kept reply (k ∷ ks) c key r (a, u) h =
    subst (λ m. has key m.1.consumers ≡ true)
      (sym (consumers-next reply k ks c a (r k.stream_name k.consumer_name)))
      (consumers-kept reply ks (with_consumer k c) key r u
        (has-put (key_of k.stream_name k.consumer_name) key c.consumers h))

consumers-made :
    (reply : Str → Str → Ok) (ks : List ConsumerConfig) (c : Client)
    → ((s k : Str) → reply s k ≡ ok tt)
    → All (IsKnown c.streams) ks
    → ((create_consumers reply ks c).0 ≡ ok tt)
      × All (IsCreated (create_consumers reply ks c).1.consumers) ks
unfolding create_consumers
consumers-made reply [] c r u = (refl, tt)
consumers-made reply (k ∷ ks) c r (a, u) =
    let made = with_consumer k c in
    let key = key_of k.stream_name k.consumer_name in
    let (done, all) = consumers-made reply ks made r u in
    subst (λ m. (m.0 ≡ ok tt) × All (IsCreated m.1.consumers) (k ∷ ks))
      (sym (consumers-next reply k ks c a (r k.stream_name k.consumer_name)))
      (done, (consumers-kept reply ks made key r u (has-first key (without key c.consumers)), all))

-- Once the default streams were created, the creation of the default consumers of any service
-- succeeds and leaves all of them in the map, if the server accepts each of them: none is refused
-- for a stream that is missing.
pub defaults_created :
    (stream_reply : Str → Ok) (reply : Str → Str → Ok) (service_name : Str) (c : Client)
    → (initialize_default_streams stream_reply c).0 ≡ ok tt
    → ((s k : Str) → reply s k ≡ ok tt)
    → let made =
        create_default_consumers_for_service reply service_name
          (initialize_default_streams stream_reply c).1 in
      (made.0 ≡ ok tt)
      × All
          (λ k. has (key_of k.stream_name k.consumer_name) made.1.consumers ≡ true)
          (relevant_configs service_name)
unfolding initialize_default_streams create_default_consumers_for_service
defaults_created stream_reply reply service_name c h r =
    let c1 = (initialize_default_streams stream_reply c).1 in
    consumers-made reply (relevant_configs service_name) c1 r (
      relevant-IsKnown c1.streams service_name
        (streams-made stream_reply default_stream_configs c h))

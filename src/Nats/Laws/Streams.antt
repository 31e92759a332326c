-- ===== src/Nats/Laws/Streams.antt =====
-- The two maps of the client stay in step: internal/pkg/nats/client.go.
use nebengjek.Prelude.{
  Option-cases, none, some, Option, sym, ◌∙◌, subst, Str, str_eq, str_eq_iff, ◌++◌, has_prefix,
  List, [], ◌∷◌, Bool, true, not, ◌≡◌, ◌≢◌, refl, length, select, All, arith, Bool-cases, inl, inr,
  ◌≤◌,
}
use nebengjek.Exec.{failed, returned, Outcome, Ok, ok, err, panicked}
use mathlib.Core.List.{append_assoc}
use nebengjek.Nats.Client.{
  Client, has, without, key_of, create_or_update_stream, create_consumer, recreate_consumer,
  some_short, without_stream, delete_stream,
}
use nebengjek.Exec.Laws.{Result-cases}

-- The key of a consumer names a stream that is kept.
abbrev pub IsKept : List Str → Str → Type 0
IsKept streams key =
    (stream : Str) × (consumer : Str) × (has stream streams ≡ true) × (key ≡ key_of stream consumer)

-- Every consumer that is kept is one of a stream that is kept.
abbrev pub IsTied : Client → Type 0
IsTied c = All (IsKept c.streams) c.consumers

has-without :
    (name other : Str) (names : List Str)
    → name ≢ other
    → has other (without name names) ≡ has other names
unfolding has without select
has-without name other [] n = refl
has-without name other (x ∷ names) n =
    grind (arith, has-without name other names n, str_eq_iff x name, str_eq_iff x other)

All-select :
    (P Q : Str → Type 0) (p : Str → Bool) (xs : List Str)
    → ((x : Str) → p x ≡ true → P x → Q x)
    → All P xs
    → All Q (select p xs)
unfolding select
All-select P Q p [] f u = tt
All-select P Q p (x ∷ xs) f (a, u) = elim (Bool-cases (p x)) [
  | inl y ↦ rw y (f x y a, All-select P Q p xs f u)
  | inr n ↦ rw n (All-select P Q p xs f u)
]

All-map : (P Q : Str → Type 0) (xs : List Str) → ((x : Str) → P x → Q x) → All P xs → All Q xs
All-map P Q [] f u = tt
All-map P Q (x ∷ xs) f (a, u) = (f x a, All-map P Q xs f u)

pub has-put :
    (name s : Str) (names : List Str)
    → has s names ≡ true
    → has s (name ∷ without name names) ≡ true
unfolding has
has-put name s names h = elim (Bool-cases (str_eq name s)) [
  | inl y ↦ ground arith
  | inr n ↦ grind (arith, has-without name s names, str_eq_iff name s)
]

create_stream-IsTied :
    (reply : Ok) (name : Str) (c : Client)
    → IsTied c
    → IsTied (create_or_update_stream reply name c).1
unfolding create_or_update_stream
create_stream-IsTied (err e) name c h = h
create_stream-IsTied (ok u) name c h =
    All-map _ _ c.consumers (λ key (s, k, p, e). (s, k, has-put name s c.streams p, e)) h

create_consumer-IsTied :
    (reply : Ok) (stream consumer : Str) (c : Client)
    → IsTied c
    → IsTied (create_consumer reply stream consumer c).1
unfolding create_consumer without
create_consumer-IsTied reply stream consumer c h = elim (Bool-cases (has stream c.streams)) [
  | inr n ↦ rw n h
  | inl y ↦ elim (Result-cases reply) [
    | inr (e, r) ↦ rw (y, r) h
    | inl (u, r) ↦
        rw (y, r) ((stream, consumer, y, refl), All-select _ _ _ c.consumers (λ key k q. q) h)
  ]
]

recreate_consumer-IsTied :
    (reply : Ok) (stream consumer : Str) (c : Client)
    → IsTied c
    → IsTied (recreate_consumer reply stream consumer c).1
unfolding recreate_consumer without
recreate_consumer-IsTied reply stream consumer c h = elim (Bool-cases (has stream c.streams)) [
  | inr n ↦ rw n h
  | inl y ↦
      let fewer : Client = record {
        streams = c.streams;
        consumers = without (key_of stream consumer) c.consumers;
      } in
      let same : recreate_consumer reply stream consumer c
          ≡ create_consumer reply stream consumer fewer =
        ground arith in
      subst (λ r. IsTied r.1) (sym same)
        (create_consumer-IsTied reply stream consumer fewer
          (All-select _ _ _ c.consumers (λ key k q. q) h))
]

has_prefix-append : (s u : Str) → has_prefix (s ++ u) s ≡ true
unfolding has_prefix
has_prefix-append [] u = refl
has_prefix-append (c ∷ s) u = ground (arith, has_prefix-append s u)

key-prefix :
    (stream consumer : Str) → has_prefix (key_of stream consumer) (stream ++ (b':' ∷ [])) ≡ true
key-prefix stream consumer =
    subst (λ k. has_prefix k (stream ++ (b':' ∷ [])) ≡ true)
      (append_assoc stream (b':' ∷ []) consumer)
      (has_prefix-append (stream ++ (b':' ∷ [])) consumer)

-- A key without the prefix of a stream is one of another stream.
other-IsKept :
    (name key : Str) (streams : List Str)
    → not (has_prefix key (name ++ (b':' ∷ []))) ≡ true
    → IsKept streams key
    → IsKept (without name streams) key
other-IsKept name key streams n (s, k, p, e) =
    let other : name ≢ s = λ q. grind (arith, key-prefix s k) in
    (s, k, has-without name s streams other ∙ p, e)

delete_stream-IsTied :
    (reply : Ok) (name : Str) (c : Client) → IsTied c → IsTied (delete_stream reply name c).1
unfolding delete_stream without_stream
delete_stream-IsTied reply name c h = elim (Bool-cases (has name c.streams)) [
  | inr n ↦ rw n h
  | inl y ↦ elim (Result-cases reply) [
    | inr (e, r) ↦ rw (y, r) h
    | inl (u, r) ↦ elim (Bool-cases (some_short name c.consumers)) [
      | inl p ↦ rw (y, r, p) h
      | inr q ↦
          rw (y, r, q) (All-select _ _ _ c.consumers (λ key k. other-IsKept name key c.streams k) h)
    ]
  ]
]

-- The operations on the maps, with what the server answers.
pub data Op : Type 0 where
  put_stream : Ok → Str → Op
  put_consumer : Ok → Str → Str → Op
  renew_consumer : Ok → Str → Str → Op
  drop_stream : Ok → Str → Op

-- The client after a deletion; a panic ends the program.
unfoldable pub survivor : Outcome (Unit {0}) → Client → Option Client
survivor panicked c = none
survivor (returned u) c = some c
survivor (failed e) c = some c

unfoldable pub step : Op → Client → Option Client
unfolding survivor
step (put_stream reply name) c = some (create_or_update_stream reply name c).1
step (put_consumer reply stream consumer) c = some (create_consumer reply stream consumer c).1
step (renew_consumer reply stream consumer) c = some (recreate_consumer reply stream consumer c).1
step (drop_stream reply name) c =
    survivor (delete_stream reply name c).0 (delete_stream reply name c).1

unfoldable pub run : List Op → Client → Option Client
unfolding step
run [] c = some c
run (op ∷ ops) c = elim (step op c) [ none ↦ none | some c1 ↦ run ops c1 ]

some_same : {c c1 : Client} → ◌≡◌ {A = Option Client} (some c) (some c1) → c ≡ c1
some_same e = cc e

survivor-IsTied :
    (o : Outcome (Unit {0})) (c c1 : Client) → IsTied c → survivor o c ≡ some c1 → IsTied c1
unfolding survivor
survivor-IsTied panicked c c1 h e = absurd (ground (arith, e))
survivor-IsTied (returned u) c c1 h e = subst IsTied (some_same e) h
survivor-IsTied (failed x) c c1 h e = subst IsTied (some_same e) h

step-IsTied : (op : Op) (c c1 : Client) → IsTied c → step op c ≡ some c1 → IsTied c1
unfolding step
step-IsTied (put_stream reply name) c c1 h e =
    subst IsTied (some_same e) (create_stream-IsTied reply name c h)
step-IsTied (put_consumer reply stream consumer) c c1 h e =
    subst IsTied (some_same e) (create_consumer-IsTied reply stream consumer c h)
step-IsTied (renew_consumer reply stream consumer) c c1 h e =
    subst IsTied (some_same e) (recreate_consumer-IsTied reply stream consumer c h)
step-IsTied (drop_stream reply name) c c1 h e =
    survivor-IsTied (delete_stream reply name c).0 (delete_stream reply name c).1 c1
      (delete_stream-IsTied reply name c h) e

-- Whatever is asked of the client and whatever the server answers, as long as no deletion panics,
-- every consumer that is kept is one of a stream that is kept, if it was so before.
pub run-IsTied : (ops : List Op) (c c1 : Client) → IsTied c → run ops c ≡ some c1 → IsTied c1
unfolding run
run-IsTied [] c c1 h e = subst IsTied (some_same e) h
run-IsTied (op ∷ ops) c c1 h e = elim (Option-cases (step op c)) [
  | inl n ↦ absurd (ground arith)
  | inr (c2, s) ↦
      run-IsTied ops c2 c1 (step-IsTied op c c2 h s)
        (subst (λ o. elim o [ none ↦ none | some c3 ↦ run ops c3 ] ≡ some c1) s e)
]

short-append :
    (name key : Str) (before after : List Str)
    → length key ≤ length name
    → some_short name (before ++ (key ∷ after)) ≡ true
unfolding some_short
short-append name key [] after h = ground arith
short-append name key (x ∷ before) after h = ground (arith, short-append name key before after h)

-- Deleting a stream panics if any consumer that is kept, of whatever stream, has a key that is not
-- longer than the name of the stream, once the server has deleted it.
pub delete_stream_panics :
    (name key : Str) (before after : List Str) (streams : List Str)
    → has name streams ≡ true
    → length key ≤ length name
    → (delete_stream
        (ok tt)
        name
        (record { streams = streams; consumers = before ++ (key ∷ after) })).0
      ≡ panicked
unfolding delete_stream
delete_stream_panics name key before after streams h l =
    rw (h, short-append name key before after l) refl

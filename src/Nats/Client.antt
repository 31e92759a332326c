-- ===== src/Nats/Client.antt =====
-- The streams and the consumers that internal/pkg/nats/client.go keeps in its two maps. What the
-- server answers is an argument, and the kept handles are known by their names.
use nebengjek.Prelude.{
  Str, str, str_eq, ◌++◌, has_prefix, List, [], ◌∷◌, Bool, false, not, ◌||◌, ltb, length, suc,
  select, if◌then◌else◌,
}
use nebengjek.Exec.{message, wrap, ok, err, Ok, Outcome, returned, failed, panicked}

pub record Client : Type 0 where
  pub streams : List Str
  -- the keys `stream:consumer`
  pub consumers : List Str

-- `_, exists := m[name]`
unfoldable pub has : Str → List Str → Bool
has name [] = false
has name (n ∷ names) = str_eq n name || has name names

-- `delete(m, name)`
unfoldable pub without : Str → List Str → List Str
without name names = select (λ n. not (str_eq n name)) names

abbrev pub key_of : Str → Str → Str
key_of stream consumer = stream ++ (b':' ∷ consumer)

unfoldable pub create_or_update_stream : Ok → Str → Client → Ok × Client
create_or_update_stream (ok u) name c =
    (ok tt, record { streams = name ∷ without name c.streams; consumers = c.consumers })
create_or_update_stream (err e) name c = (err (wrap (str "failed to create/update stream") e), c)

abbrev pub add_consumer : Ok → Str → Client → Ok × Client
add_consumer (ok u) key c =
    (ok tt, record { streams = c.streams; consumers = key ∷ without key c.consumers })
add_consumer (err e) key c = (err (wrap (str "failed to create consumer") e), c)

abbrev pub stream_not_found : Str → Ok
stream_not_found name = err (message (str "stream " ++ (name ++ str " not found")))

unfoldable pub create_consumer : Ok → Str → Str → Client → Ok × Client
create_consumer reply stream consumer c =
    if has stream c.streams
    then add_consumer reply (key_of stream consumer) c
    else (stream_not_found stream, c)

-- A failed deletion is ignored; the key is dropped in any case.
unfoldable pub recreate_consumer : Ok → Str → Str → Client → Ok × Client
unfolding create_consumer
recreate_consumer reply stream consumer c =
    if has stream c.streams
    then create_consumer reply stream consumer
        (record { streams = c.streams; consumers = without (key_of stream consumer) c.consumers })
    else (stream_not_found stream, c)

-- `key[:len(name)+1]` panics for a key that is shorter.
unfoldable pub some_short : Str → List Str → Bool
some_short name [] = false
some_short name (key ∷ keys) = ltb (length key) (suc (length name)) || some_short name keys

-- `if fmt.Sprintf("%s:", name) == key[:len(name)+1] { delete(c.consumers, key) }`
unfoldable pub without_stream : Str → List Str → List Str
without_stream name keys = select (λ key. not (has_prefix key (name ++ (b':' ∷ [])))) keys

abbrev pub drop_stream : Ok → Str → Client → Outcome (Unit {0}) × Client
drop_stream (err e) name c = (failed (wrap (str "failed to delete stream " ++ name) e), c)
drop_stream (ok u) name c = if some_short name c.consumers then (panicked, c) else (
  returned tt,
  record { streams = without name c.streams; consumers = without_stream name c.consumers },
)

-- After a panic the maps are as the panic left them; what is given is from before.
unfoldable pub delete_stream : Ok → Str → Client → Outcome (Unit {0}) × Client
delete_stream reply name c =
    if has name c.streams
    then drop_stream reply name c
    else (failed (message (str "stream " ++ (name ++ str " not found"))), c)

-- `Close`
abbrev pub closed : Client → Client
closed c = record { streams = []; consumers = [] }

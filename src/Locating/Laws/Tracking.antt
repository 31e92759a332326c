-- ===== src/Locating/Laws/Tracking.antt =====
-- The track of a ride: StoreLocation and GetLastLocation of services/location.
use nebengjek.Locating.Repo
use nebengjek.Locating.Usecase
use nebengjek.Prelude.{
  str_eq_refl, refl, if◌then◌else◌, ℕ, [], ◌∷◌, ◌≡◌, ◌≢◌, Str, str_eq, arith, List,
}
use nebengjek.Exec.{Ok, ok, err, returned}
use nebengjek.Locating.Env.{
  publish_location_aggregate, redis_delete, hash_set, hash_get, Env, Call, History,
}
use nebengjek.Domain.Places.{Location}
use nebengjek.Domain.Rides.{LocationAggregate}

-- What HMGET gives of the three fields after a history, where no key expires: those that the last
-- acknowledged write has left.
unfoldable pub stored_fields : (Call → History → Ok) → Str → History → List Str
stored_fields reply k [] = [] ∷ [] ∷ [] ∷ []
stored_fields reply k (hash_set j f ∷ t) = elim (reply (hash_set j f) t) [
  | ok u ↦ if str_eq j k then f.lat ∷ f.lng ∷ f.ts ∷ [] else stored_fields reply k t
  | err e ↦ stored_fields reply k t
]
stored_fields reply k (redis_delete j ∷ t) = elim (reply (redis_delete j) t) [
  | ok u ↦ if str_eq j k then [] ∷ [] ∷ [] ∷ [] else stored_fields reply k t
  | err e ↦ stored_fields reply k t
]
stored_fields reply k (c ∷ t) = stored_fields reply k t

-- At this moment Redis answers the look-up of a ride's location, without an error, with the fields
-- that were written last: they have not expired.
abbrev pub AnswersAt : Env → Str → History → Type 0
AnswersAt env ride_id t =
    env.fields_reply (hash_get (Repo.key_ride_location ride_id)) t
    ≡ ok (stored_fields env.reply (Repo.key_ride_location ride_id) t)

-- The documented behaviour of strconv at a location: what is formatted is not empty and is parsed
-- to the same number.
abbrev pub IsFormatted : Env → Location → Type 0
IsFormatted env l =
    (env.parse_float (env.format_float l.latitude) ≡ ok l.latitude)
    × (env.parse_float (env.format_float l.longitude) ≡ ok l.longitude)
    × (env.parse_int (env.format_int (env.unix l.timestamp)) ≡ ok (env.unix l.timestamp))
    × (env.format_float l.latitude ≢ [])

-- A location as it comes back: its time is cut to a second.
abbrev pub to_second : Env → Location → Location
to_second env l = record l { timestamp = env.of_unix (env.unix l.timestamp) }

-- The fields of a location as they are stored.
abbrev fields_of : Env → Location → List Str
fields_of env l =
    env.format_float l.latitude
    ∷ env.format_float l.longitude
    ∷ env.format_int (env.unix l.timestamp)
    ∷ []

cons_of : (xs : Str) → xs ≢ [] → (c : ℕ) × (s : Str) × (xs ≡ c ∷ s)
cons_of [] n = absurd (n refl)
cons_of (c ∷ s) n = (c, s, refl)

read_back :
    (env : Env) (ride_id : Str) (l : Location) (t : History)
    → AnswersAt env ride_id t
    → IsFormatted env l
    → stored_fields env.reply (Repo.key_ride_location ride_id) t ≡ fields_of env l
    → (Repo.get_last_location env ride_id t).0 ≡ returned (to_second env l)
unfolding Repo.get_last_location
read_back env ride_id l t law (a, b, d, n) r =
    let (c, s, e) = cons_of (env.format_float l.latitude) n in ground (arith, a, b, d, e, law, r)

written :
    (env : Env) (ride_id : Str) (l : Location) (t : History)
    → (Repo.store_location env ride_id l t).0 ≡ returned tt
    → stored_fields env.reply
        (Repo.key_ride_location ride_id)
        (Repo.store_location env ride_id l t).1
      ≡ fields_of env l
unfolding Repo.store_location stored_fields
written env ride_id l t h = ground (arith, str_eq_refl (Repo.key_ride_location ride_id))

-- A location that was stored is the one that is read back, its time cut to a second, if Redis
-- answers with what was written.
pub last_stored :
    (env : Env) (ride_id : Str) (l : Location) (t : History)
    → AnswersAt env ride_id (Repo.store_location env ride_id l t).1
    → IsFormatted env l
    → (Repo.store_location env ride_id l t).0 ≡ returned tt
    → (Repo.get_last_location env ride_id (Repo.store_location env ride_id l t).1).0
      ≡ returned (to_second env l)
last_stored env ride_id l t law f h =
    read_back env ride_id l (Repo.store_location env ride_id l t).1 law f
      (written env ride_id l t h)

-- The aggregates that were published, the newest first.
unfoldable pub aggregates : History → List LocationAggregate
aggregates [] = []
aggregates (publish_location_aggregate a ∷ t) = a ∷ aggregates t
aggregates (c ∷ t) = aggregates t

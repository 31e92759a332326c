-- ===== src/Locating/Laws/Nearby.antt =====
-- The search for nearby drivers and the set of available ones, services/location/repository.
use nebengjek.Locating.Repo
use nebengjek.Prelude.{
  str_eq_refl, subst, ◌++◌, ◌&&◌, if◌then◌else◌, [], ◌∷◌, ◌≡◌, ◌≢◌, Bool, true, false, Str, str_eq,
  arith, All, List, inl, inr,
}
use nebengjek.Exec.{Ok, ok, err, returned}
use nebengjek.Locating.Env.{
  now, geo_radius, geo_add, expire, hash_set, sorted_remove, redis_delete, hash_get, hash_get_all,
  publish_location_aggregate, set_remove, set_add, GeoLocation, set_is_member, Env, Call, History,
}
use nebengjek.Domain.Matches.{NearbyUser}
use nebengjek.Domain.Places.{Float64, Location, Time}
use nebengjek.Exec.Laws.{Outcome-cases, Result-cases}

-- Whether a set of Redis has a member after a history, where no key expires: what the last
-- acknowledged change of that member has left.
unfoldable pub stored_member : (Call → History → Ok) → Str → Str → History → Bool
stored_member reply k m [] = false
stored_member reply k m (set_add j n ∷ t) = elim (reply (set_add j n) t) [
  | ok u ↦ if str_eq j k && str_eq n m then true else stored_member reply k m t
  | err e ↦ stored_member reply k m t
]
stored_member reply k m (set_remove j n ∷ t) = elim (reply (set_remove j n) t) [
  | ok u ↦ if str_eq j k && str_eq n m then false else stored_member reply k m t
  | err e ↦ stored_member reply k m t
]
stored_member reply k m (c ∷ t) = stored_member reply k m t

-- The documented behaviour of SISMEMBER: when it answers, it tells what the set has.
abbrev pub AnswersMember : Env → Type 0
AnswersMember env =
    (k m : Str) (t : History) (b : Bool)
    → env.member_reply (set_is_member k m) t ≡ ok b
    → b ≡ stored_member env.reply k m t

abbrev nearby_user : GeoLocation → Time → NearbyUser
nearby_user f t = record {
  id = f.name;
  location = record { latitude = f.latitude; longitude = f.longitude; timestamp = t };
  distance = f.dist;
}

keep_members :
    (env : Env) (key m : Str) (found : List GeoLocation) (users : List NearbyUser) (t : History)
    → AnswersMember env
    → stored_member env.reply key m t ≡ false
    → (Repo.keep_available env key found t).0 ≡ returned users
    → All (λ u. u.id ≢ m) users
unfolding Repo.keep_available stored_member
keep_members env key m [] users t law gone h =
    let e : [] ≡ users = ground arith in subst (All (λ (u : NearbyUser). u.id ≢ m)) e tt
keep_members env key m (f ∷ found) users t law gone h =
    let asked = set_is_member key f.name ∷ t in
    elim (Result-cases (env.member_reply (set_is_member key f.name) t)) [
      | inr (x, r) ↦ absurd (ground arith)
      | inl (true, r) ↦ elim (Outcome-cases (Repo.keep_available env key found (now ∷ asked)).0) [
        | inl (us, q) ↦
            let u = nearby_user f (env.clock asked) in
            let e : u ∷ us ≡ users = ground arith in
            subst (All (λ (u : NearbyUser). u.id ≢ m)) e (
              (λ same. absurd (ground (arith, law key f.name t true r))),
              keep_members env key m found us (now ∷ asked) law gone q,
            )
        | inr (inl (e, q)) ↦ absurd (ground arith)
        | inr (inr q) ↦ absurd (ground arith)
      ]
      | inl (false, r) ↦ elim (Outcome-cases (Repo.keep_available env key found asked).0) [
        | inl (us, q) ↦
            let e : us ≡ users = ground arith in
            subst (All (λ (u : NearbyUser). u.id ≢ m)) e
              (keep_members env key m found us asked law gone q)
        | inr (inl (e, q)) ↦ absurd (ground arith)
        | inr (inr q) ↦ absurd (ground arith)
      ]
    ]

removed_gone :
    (env : Env) (d : Str) (t : History)
    → (Repo.remove_available_driver env d t).0 ≡ returned tt
    → stored_member env.reply Repo.key_available_drivers d (Repo.remove_available_driver env d t).1
      ≡ false
unfolding Repo.remove_available_driver Repo.remove_from_redis_geo stored_member
removed_gone env d t r = ground (arith, str_eq_refl d, str_eq_refl Repo.key_available_drivers)

-- Nothing of a history adds the driver to the available ones; all else may be in it.
unfoldable pub NotAdded : Str → History → Type 0
NotAdded d [] = Unit
NotAdded d (set_add j n ∷ t) =
    ((str_eq j Repo.key_available_drivers && str_eq n d) ≡ false) × NotAdded d t
NotAdded d (c ∷ t) = NotAdded d t

stays_out :
    (reply : Call → History → Ok) (d : Str) (later t : History)
    → NotAdded d later
    → stored_member reply Repo.key_available_drivers d t ≡ false
    → stored_member reply Repo.key_available_drivers d (later ++ t) ≡ false
unfolding NotAdded stored_member
stays_out reply d [] t n h = h
stays_out reply d (set_add j m ∷ later) t (n, ns) h =
    ground (arith, n, stays_out reply d later t ns h)
stays_out reply d (set_remove j m ∷ later) t n h = ground (arith, stays_out reply d later t n h)
stays_out reply d (now ∷ later) t n h = stays_out reply d later t n h
stays_out reply d (geo_add a b c e ∷ later) t n h = stays_out reply d later t n h
stays_out reply d (expire a b ∷ later) t n h = stays_out reply d later t n h
stays_out reply d (hash_set a b ∷ later) t n h = stays_out reply d later t n h
stays_out reply d (sorted_remove a b ∷ later) t n h = stays_out reply d later t n h
stays_out reply d (redis_delete a ∷ later) t n h = stays_out reply d later t n h
stays_out reply d (geo_radius a b c e ∷ later) t n h = stays_out reply d later t n h
stays_out reply d (set_is_member a b ∷ later) t n h = stays_out reply d later t n h
stays_out reply d (hash_get a ∷ later) t n h = stays_out reply d later t n h
stays_out reply d (hash_get_all a ∷ later) t n h = stays_out reply d later t n h
stays_out reply d (publish_location_aggregate a ∷ later) t n h = stays_out reply d later t n h

-- A driver who was removed, with the reply that this was done, is listed by no search that returns,
-- whatever else has happened in between, as long as nothing has added the driver again. Redis is
-- asked for the members of a set that does not expire meanwhile.
pub removed_driver_hidden :
    (env : Env) (driver_id : Str) (l : Location) (radius : Float64) (users : List NearbyUser)
    (t later : History)
    → AnswersMember env
    → (Repo.remove_available_driver env driver_id t).0 ≡ returned tt
    → NotAdded driver_id later
    → (Repo.find_nearby_drivers env l radius
        (later ++ (Repo.remove_available_driver env driver_id t).1)).0
      ≡ returned users
    → All (λ u. u.id ≢ driver_id) users
unfolding Repo.find_nearby_drivers Repo.find_nearby_users
removed_driver_hidden env d l radius users t later law r n h =
    let t' = later ++ (Repo.remove_available_driver env d t).1 in
    let query = geo_radius Repo.key_driver_geo l.longitude l.latitude radius in
    let out = stays_out env.reply d later _ n (removed_gone env d t r) in
    elim (Result-cases (env.geo_reply query t')) [
      | inr (x, q) ↦ absurd (ground arith)
      | inl (found, q) ↦
          keep_members env Repo.key_available_drivers d found users (query ∷ t') law
            (unfold stored_member in out) (ground arith)
    ]

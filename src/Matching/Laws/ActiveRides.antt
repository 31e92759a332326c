-- ===== src/Matching/Laws/ActiveRides.antt =====
-- The active rides in Redis and the pool of drivers: set_active_ride, remove_active_ride,
-- has_active_ride and HandleBeaconEvent.
use nebengjek.Prelude.{
  Bool, refl, [], if◌then◌else◌, str_eq_refl, arith, ◌∷◌, true, false, str_eq, Str, str, ◌≡◌,
}
use nebengjek.Matching.Env.{
  remove_available_driver, add_available_driver, redis_delete, redis_set, redis_get, History, Env,
  Call,
}
use nebengjek.Matching.Repo.ActiveRide.{
  remove_active_ride, get_active_ride_by_passenger, get_active_ride_by_driver,
  key_active_ride_driver, set_active_ride, key_active_ride_passenger,
}
use nebengjek.Matching.Usecase.Pool.{position, handle_beacon_event, is_ride, has_active_ride}
use nebengjek.Exec.{Ok, outcome, ok, redis_nil, returned, err, Result}
use nebengjek.Domain.Events.{BeaconEvent}

-- The look-up found a ride: it answered a text that is not empty.
abbrev pub finds_ride : Result Str → Bool
finds_ride (ok ride_id) = is_ride ride_id
finds_ride (err e) = false

-- What Redis holds under a key after a history, where no key expires: the value of the last write
-- that was acknowledged, or nothing.
unfoldable pub stored_text : (Call → History → Ok) → Str → History → Result Str
stored_text reply k [] = err redis_nil
stored_text reply k (redis_set j v ttl ∷ t) = elim (reply (redis_set j v ttl) t) [
  | ok u ↦ if str_eq j k then ok v else stored_text reply k t
  | err e ↦ stored_text reply k t
]
stored_text reply k (redis_delete j ∷ t) = elim (reply (redis_delete j) t) [
  | ok u ↦ if str_eq j k then err redis_nil else stored_text reply k t
  | err e ↦ stored_text reply k t
]
stored_text reply k (c ∷ t) = stored_text reply k t

-- The documented behaviour of GET: it answers what the last write has left.
abbrev pub AnswersGet : Env → Type 0
AnswersGet env =
    (k : Str) (t : History) → env.text_reply (redis_get k) t ≡ stored_text env.reply k t

-- GET of one key does so at one moment: it does not fail, and the key has not expired.
abbrev pub AnswersAt : Env → Str → History → Type 0
AnswersAt env k t = env.text_reply (redis_get k) t ≡ stored_text env.reply k t

pub keys_differ :
    (d p : Str) → str_eq (key_active_ride_passenger p) (key_active_ride_driver d) ≡ false
unfolding key_active_ride_passenger key_active_ride_driver str str_eq
keys_differ d p = refl

pub keys_differ' :
    (d p : Str) → str_eq (key_active_ride_driver d) (key_active_ride_passenger p) ≡ false
unfolding key_active_ride_passenger key_active_ride_driver str str_eq
keys_differ' d p = refl

driver_keys :
    (d d' : Str) → str_eq (key_active_ride_driver d) (key_active_ride_driver d') ≡ str_eq d d'
unfolding key_active_ride_driver str str_eq
driver_keys d d' = refl

passenger_keys :
    (d d' : Str) → str_eq (key_active_ride_passenger d) (key_active_ride_passenger d') ≡ str_eq d d'
unfolding key_active_ride_passenger str str_eq
passenger_keys d d' = refl

-- After SetActiveRide has returned, the ride is active for its driver and for its passenger.
pub has-set :
    (env : Env) (driver_id passenger_id ride_id : Str) (t : History)
    → AnswersGet env
    → (set_active_ride env driver_id passenger_id ride_id t).0 ≡ returned tt
    → let t' = (set_active_ride env driver_id passenger_id ride_id t).1 in
      ((has_active_ride env driver_id true t').0 ≡ returned (is_ride ride_id))
      × ((has_active_ride env passenger_id false t').0 ≡ returned (is_ride ride_id))
unfolding set_active_ride has_active_ride get_active_ride_by_driver get_active_ride_by_passenger
    stored_text
has-set env d p r t law h = ground (
  arith,
  law (key_active_ride_driver d) (set_active_ride env d p r t).1,
  law (key_active_ride_passenger p) (set_active_ride env d p r t).1,
  keys_differ d p,
  keys_differ' d p,
  str_eq_refl (key_active_ride_driver d),
  str_eq_refl (key_active_ride_passenger p),
)

-- After RemoveActiveRide, if Redis acknowledged both deletions, the ride is active for nobody.
pub has-remove :
    (env : Env) (driver_id passenger_id : Str) (t : History)
    → AnswersGet env
    → env.reply (redis_delete (key_active_ride_driver driver_id)) t ≡ ok tt
    → env.reply
        (redis_delete (key_active_ride_passenger passenger_id))
        (redis_delete (key_active_ride_driver driver_id) ∷ t)
      ≡ ok tt
    → let (r, t') = remove_active_ride env driver_id passenger_id t in
      (r ≡ returned tt)
      × ((has_active_ride env driver_id true t').0 ≡ returned false)
      × ((has_active_ride env passenger_id false t').0 ≡ returned false)
unfolding remove_active_ride has_active_ride get_active_ride_by_driver get_active_ride_by_passenger
    stored_text
has-remove env d p t law hd hp = ground (
  arith,
  law (key_active_ride_driver d) (remove_active_ride env d p t).1,
  law (key_active_ride_passenger p) (remove_active_ride env d p t).1,
  keys_differ d p,
  keys_differ' d p,
  str_eq_refl (key_active_ride_driver d),
  str_eq_refl (key_active_ride_passenger p),
)

-- Recording a ride, whether it succeeds or fails, changes nothing for any other driver and for any
-- other passenger.
pub has-set_ne :
    (env : Env) (driver_id passenger_id ride_id d p : Str) (t : History)
    → AnswersGet env
    → str_eq driver_id d ≡ false
    → str_eq passenger_id p ≡ false
    → let t' = (set_active_ride env driver_id passenger_id ride_id t).1 in
      ((has_active_ride env d true t').0 ≡ (has_active_ride env d true t).0)
      × ((has_active_ride env p false t').0 ≡ (has_active_ride env p false t).0)
unfolding set_active_ride has_active_ride get_active_ride_by_driver get_active_ride_by_passenger
    stored_text
has-set_ne env d p r d' p' t law nd np = ground (
  arith,
  law (key_active_ride_driver d') (set_active_ride env d p r t).1,
  law (key_active_ride_passenger p') (set_active_ride env d p r t).1,
  law (key_active_ride_driver d') t,
  law (key_active_ride_passenger p') t,
  keys_differ d' p,
  keys_differ' d p',
  driver_keys d d',
  passenger_keys p p',
)

-- The history that a beacon event leaves, on every branch: an active beacon joins the pool unless
-- a ride is found (a failed look-up does not keep it out), at its position with no timestamp; an
-- inactive one leaves it. The reply is the reply of that one call, or success if none is made.
pub beacon_pool :
    (env : Env) (event : BeaconEvent) (t : History)
    → let look = redis_get (key_active_ride_driver event.user_id) ∷ t in
      let join = add_available_driver event.user_id (position event.location) in
      let leave = remove_available_driver event.user_id in
      handle_beacon_event env event t ≡ (
        if event.is_active
        then if finds_ride (env.text_reply (redis_get (key_active_ride_driver event.user_id)) t)
          then (returned tt, look)
          else (outcome (env.reply join look), join ∷ look)
        else (outcome (env.reply leave t), leave ∷ t))
unfolding handle_beacon_event has_active_ride get_active_ride_by_driver
beacon_pool env event t = ground (arith, str_eq_refl (str "driver"))

-- A driver whose ride was recorded does not join the pool: the beacon succeeds and only looks.
pub beacon_riding :
    (env : Env) (event : BeaconEvent) (passenger_id ride_id : Str) (t : History)
    → AnswersGet env
    → event.is_active ≡ true
    → is_ride ride_id ≡ true
    → (set_active_ride env event.user_id passenger_id ride_id t).0 ≡ returned tt
    → let t' = (set_active_ride env event.user_id passenger_id ride_id t).1 in
      handle_beacon_event env event t'
      ≡ (returned tt, redis_get (key_active_ride_driver event.user_id) ∷ t')
unfolding set_active_ride stored_text
beacon_riding env event p r t law active ride h = ground (
  arith,
  beacon_pool env event (set_active_ride env event.user_id p r t).1,
  law (key_active_ride_driver event.user_id) (set_active_ride env event.user_id p r t).1,
  keys_differ event.user_id p,
  str_eq_refl (key_active_ride_driver event.user_id),
)

-- ===== src/Tests/Locations.antt =====
-- The theorems about the location service at concrete inputs.
use nebengjek.Locating.Repo
use nebengjek.Locating.Usecase
use nebengjek.Prelude.{str_eq, ◌≢◌, str, ◌++◌, All, refl, [], ◌∷◌, ◌≡◌}
use nebengjek.Tests.LocateWorld.{redis-AnswersMember, redis}
use nebengjek.Domain.Places.{Location}
use nebengjek.Exec.{returned}
use nebengjek.Domain.Rides.{LocationUpdate}
use nebengjek.Locating.Laws.Nearby.{removed_driver_hidden, stored_member, NotAdded}
use nebengjek.Domain.Matches.{NearbyUser}
use nebengjek.Locating.Env.{History, set_add, now}

abbrev place : Location
place = record { latitude = 6; longitude = 106; timestamp = 7 }

stores : (Repo.store_location redis (1 ∷ []) place []).0 ≡ returned tt
unfolding Repo.store_location
stores = refl

abbrev update : LocationUpdate
update = record { ride_id = 1 ∷ []; driver_id = 2 ∷ []; location = place; created_at = 7 }

-- Drivers 2 and 5 join, and driver 2 leaves.
abbrev joined : History
joined =
    (Repo.add_available_driver redis (5 ∷ []) place
      (Repo.add_available_driver redis (2 ∷ []) place []).1).1

removes : (Repo.remove_available_driver redis (2 ∷ []) joined).0 ≡ returned tt
unfolding Repo.remove_available_driver Repo.remove_from_redis_geo
removes = refl

abbrev driver_five : NearbyUser
driver_five = record {
  id = 5 ∷ [];
  location = record { latitude = 0; longitude = 0; timestamp = 9 };
  distance = 2;
}

-- A passenger joins meanwhile.
abbrev meanwhile : History
meanwhile = set_add Repo.key_available_passengers (2 ∷ []) ∷ now ∷ []

meanwhile-NotAdded : NotAdded (2 ∷ []) meanwhile
unfolding NotAdded str_eq str
meanwhile-NotAdded = (refl, tt)

finds_five :
    (Repo.find_nearby_drivers redis place 5
      (meanwhile ++ (Repo.remove_available_driver redis (2 ∷ []) joined).1)).0
    ≡ returned (driver_five ∷ [])
unfolding Repo.remove_available_driver Repo.remove_from_redis_geo Repo.find_nearby_drivers
    Repo.find_nearby_users Repo.keep_available stored_member str str_eq Repo.add_available_driver
    Repo.add_to_redis_geo
finds_five = refl

removed_driver_hidden_example : All (λ (u : NearbyUser). u.id ≢ 2 ∷ []) (driver_five ∷ [])
removed_driver_hidden_example =
    removed_driver_hidden redis (2 ∷ []) place 5 (driver_five ∷ []) joined meanwhile
      redis-AnswersMember removes meanwhile-NotAdded finds_five

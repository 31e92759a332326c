-- ===== src/Tests/Beginnings.antt =====
-- The theorems about the beginning and the end of a ride at concrete inputs.
use nebengjek.Riding.Repo
use nebengjek.Prelude.{true, ◌⊎◌, arith, ◌≢◌, some, refl, [], ◌∷◌, ◌≡◌}
use nebengjek.Tests.RideWorld.{proposal, paying_world, bill, ride_world}
use nebengjek.Riding.Env.{
  publish_ride_pickup, insert_ride, select_ride, History, select_payment, Env,
}
use nebengjek.Riding.Usecase.{is_duplicate, create_ride, process_payment}
use nebengjek.Domain.Rides.{
  PaymentStatus, Ride, RideStatus, Payment, PaymentProccessRequest, RideStartRequest,
}
use nebengjek.Domain.Places.{zero_location}
use nebengjek.Exec.{err, ok, failed, Error, returned}
use nebengjek.Riding.Laws.Starting.{created_returned, IsNewRide}
use nebengjek.Riding.History.{pickups, payment_updates, status_updates}
use nebengjek.Riding.Laws.Completion.{paid_once}

abbrev waiting : Env
waiting = ride_world RideStatus.driver_pickup

creates_ride : (create_ride waiting proposal []).0 ≡ returned tt
unfolding create_ride Repo.create_ride
creates_ride = refl

created_returned_example :
    let t' = (create_ride waiting proposal []).1 in
    (r : Ride) × (h : History) × IsNewRide waiting proposal r
    × ((waiting.reply (insert_ride r) h ≡ ok tt)
          × (t' ≡ publish_ride_pickup r ∷ insert_ride r ∷ h)
          × (pickups t' ≡ r ∷ pickups [])
        ⊎ (e : Error) × (waiting.reply (insert_ride r) h ≡ err e)
          × (is_duplicate e ≡ true)
          × (t' ≡ insert_ride r ∷ h)
          × (pickups t' ≡ pickups []))
created_returned_example = created_returned waiting proposal [] creates_ride

abbrev start_request : RideStartRequest
start_request = record {
  ride_id = 1 ∷ [];
  driver_location = some zero_location;
  passenger_location = some zero_location;
}

abbrev accept_payment : PaymentProccessRequest
accept_payment = record { ride_id = 1 ∷ []; total_cost = 100; status = PaymentStatus.accepted }

abbrev paid : Payment
paid = record bill { status = PaymentStatus.accepted }

pays_first : (process_payment paying_world accept_payment []).0 ≡ returned paid
unfolding process_payment Repo.get_ride Repo.get_payment_by_ride_id Repo.update_payment_status
    Repo.complete_ride
pays_first = refl

shown_paid :
    paying_world.payment_reply
      (select_payment 1)
      (select_ride 1 ∷ (process_payment paying_world accept_payment []).1)
    ≡ ok paid
unfolding process_payment Repo.get_ride Repo.get_payment_by_ride_id Repo.update_payment_status
    Repo.complete_ride
shown_paid = refl

accepted-ne-pending : PaymentStatus.accepted ≢ PaymentStatus.pending
accepted-ne-pending = λ e. ground arith

paid_once_example :
    let t' = (process_payment paying_world accept_payment []).1 in
    (e : Error) × ((process_payment paying_world accept_payment t').0 ≡ failed e)
    × (status_updates (process_payment paying_world accept_payment t').1 ≡ status_updates t')
    × (payment_updates (process_payment paying_world accept_payment t').1 ≡ payment_updates t')
paid_once_example =
    paid_once paying_world accept_payment accept_payment 1 paid [] refl refl accepted-ne-pending
      pays_first shown_paid

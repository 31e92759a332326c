-- ===== src/Tests/Rides.antt =====
-- The theorems about the rides service at concrete inputs.
use nebengjek.Riding.Repo
use nebengjek.Prelude.{◌^◌, ◌%◌, ◌+◌, ◌*◌, str, refl, [], ◌∷◌, ◌≡◌}
use nebengjek.Tests.RideWorld.{to_int_bounded, entry, bill, flaky_world, ride_world}
use nebengjek.Riding.Env.{select_payment, sum_billing, select_ride, Env}
use nebengjek.Riding.Laws.Lifecycle.{after-Moves, pay, after, Moves}
use nebengjek.Riding.Usecase.{
  admin_fee_of, qr_code_url_of, adjusted_cost_of, process_payment, ride_arrived,
  process_billing_update,
}
use nebengjek.Domain.Rides.{
  PaymentStatus, RideStatus, Ride, Payment, PaymentRequest, PaymentProccessRequest, RideArrivalReq,
}
use nebengjek.Riding.History.{payments, billed, totaled, status_updates}
use nebengjek.Domain.Places.{Int64, Uuid}
use nebengjek.Exec.{ok, returned, failed, wrap, external}
use nebengjek.Riding.Laws.Payments.{arrived_returned, IsFareOf, paid_returned, paid_completes}
use nebengjek.Riding.Laws.Billing.{billing_redelivered, billing_returned}

abbrev going : Env
going = ride_world RideStatus.ongoing

bills : (process_billing_update going (1 ∷ []) entry []).0 ≡ returned tt
unfolding process_billing_update Repo.get_ride Repo.add_billing_entry Repo.update_total_cost
bills = refl

billing_returned_example :
    let t' = (process_billing_update going (1 ∷ []) entry []).1 in
    (id : Uuid) × (ride : Ride) × (going.parse_uuid (1 ∷ []) ≡ ok id)
    × (going.ride_reply (select_ride id) [] ≡ ok ride)
    × (ride.status ≡ RideStatus.ongoing)
    × (billed going t' ≡ 50 + billed going [])
    × (totaled going t' ≡ 50 + totaled going [])
billing_returned_example = billing_returned going (1 ∷ []) entry [] bills

fails_first :
    (process_billing_update flaky_world (1 ∷ []) entry []).0
    ≡ failed (
        wrap
          (str "failed to update total cost")
          (wrap (str "failed to update ride total cost") (external (str "timeout"))))
unfolding process_billing_update Repo.get_ride Repo.add_billing_entry Repo.update_total_cost
fails_first = refl

then_bills :
    (process_billing_update flaky_world
      (1 ∷ [])
      entry
      (process_billing_update flaky_world (1 ∷ []) entry []).1).0
    ≡ returned tt
unfolding process_billing_update Repo.get_ride Repo.add_billing_entry Repo.update_total_cost
then_bills = refl

billing_redelivered_example :
    let t' = (process_billing_update flaky_world (1 ∷ []) entry []).1 in
    let t'' = (process_billing_update flaky_world (1 ∷ []) entry t').1 in
    (billed flaky_world t'' ≡ 2 * 50 + billed flaky_world [])
    × (totaled flaky_world t'' ≡ 50 + totaled flaky_world t')
billing_redelivered_example =
    billing_redelivered flaky_world (1 ∷ []) entry
      (wrap (str "failed to update ride total cost") (external (str "timeout"))) [] fails_first
      then_bills

abbrev payment_request : PaymentProccessRequest
payment_request = record { ride_id = 1 ∷ []; total_cost = 100; status = PaymentStatus.accepted }

after-Moves_example : Moves going [] (after going (pay payment_request) [])
after-Moves_example = after-Moves going (pay payment_request) []

abbrev arrival : RideArrivalReq
arrival = record { ride_id = 1 ∷ []; adjustment_factor = 1 }

abbrev asked : PaymentRequest
asked = record {
  ride_id = 1 ∷ [];
  passenger_id = 3 ∷ [];
  total_cost = 100;
  qr_code_url = qr_code_url_of going (1 ∷ []) 100 (3 ∷ []);
}

arrives : (ride_arrived going arrival []).0 ≡ returned asked
unfolding ride_arrived Repo.get_ride Repo.get_billing_ledger_sum Repo.create_payment
    adjusted_cost_of admin_fee_of
arrives = refl

arrived_returned_example :
    (id : Uuid) × (ride : Ride) × (total : Int64) × (p : Payment) × (going.ride_reply
        (select_ride id)
        []
      ≡ ok ride)
    × (going.int_reply (sum_billing (1 ∷ [])) (select_ride id ∷ []) ≡ ok total)
    × (ride.status ≡ RideStatus.ongoing)
    × IsFareOf going arrival ride total p
    × ((p.admin_fee + p.driver_payout) % 2 ^ 64 ≡ p.adjusted_cost)
    × (100 ≡ p.adjusted_cost)
    × (payments (ride_arrived going arrival []).1 ≡ p ∷ payments [])
arrived_returned_example = arrived_returned going arrival asked [] to_int_bounded arrives

abbrev settled_bill : Payment
settled_bill = record bill { status = PaymentStatus.accepted }

pays : (process_payment going payment_request []).0 ≡ returned settled_bill
unfolding process_payment Repo.get_ride Repo.get_payment_by_ride_id Repo.update_payment_status
    Repo.complete_ride
pays = refl

paid_returned_example :
    (id : Uuid) × (ride : Ride) × (p : Payment) × (going.ride_reply (select_ride id) [] ≡ ok ride)
    × (going.payment_reply (select_payment id) (select_ride id ∷ []) ≡ ok p)
    × (ride.status ≡ RideStatus.ongoing)
    × (p.status ≡ PaymentStatus.pending)
    × (p.adjusted_cost ≡ 100)
    × (settled_bill ≡ record p { status = PaymentStatus.accepted })
paid_returned_example = paid_returned going payment_request settled_bill [] pays

paid_completes_example :
    status_updates (process_payment going payment_request []).1
    ≡ RideStatus.completed ∷ status_updates []
paid_completes_example = paid_completes going payment_request settled_bill [] pays

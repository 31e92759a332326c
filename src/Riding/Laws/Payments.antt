-- ===== src/Riding/Laws/Payments.antt =====
-- Payments: RideArrived and ProcessPayment in services/rides/usecase/ride.go.
use nebengjek.Riding.Repo
use nebengjek.Prelude.{inl, inr, ◌==◌, refl, ◌∷◌, arith, ◌%◌, if◌then◌else◌, ◌+◌, ◌^◌, ◌<◌, ◌≡◌}
use nebengjek.Riding.Env.{now, new_uuid, sum_billing, select_payment, select_ride, History, Env}
use nebengjek.Domain.Places.{Uuid, Float64, Int64}
use nebengjek.Riding.Usecase.{
  admin_fee_of, sub_int, adjusted_cost_of, process_payment, ride_arrived,
}
use nebengjek.Riding.History.{is_accepted, payments, status_updates}
use nebengjek.Domain.Rides.{
  RideStatus, PaymentStatus, Ride, PaymentRequest, Payment, PaymentProccessRequest, RideArrivalReq,
}
use nebengjek.Exec.{ok, returned}
use nebengjek.Exec.Laws.{Result-cases}

-- The payment that RideArrived stores for a ride whose ledger sums to `total`.
abbrev pub IsFareOf : Env → RideArrivalReq → Ride → Int64 → Payment → Type 0
IsFareOf env req ride total p =
    (p.ride_id ≡ ride.ride_id)
    × (p.adjusted_cost ≡ adjusted_cost_of env total req.adjustment_factor)
    × (p.admin_fee ≡ admin_fee_of env p.adjusted_cost)
    × (p.status ≡ PaymentStatus.pending)

-- The fee and the payout add up to the adjusted cost, as 64-bit integers.
pub sub_int_add : (a b : Int64) → a < 2 ^ 64 → b < 2 ^ 64 → (b + sub_int a b) % 2 ^ 64 ≡ a
sub_int_add a b ha hb = omega arith

module _ (env : Env) (req : RideArrivalReq) (out : PaymentRequest) (t : History) (id : Uuid)
    (ride : Ride) (total : Int64) (parsed : env.parse_uuid req.ride_id ≡ ok id)
    (row : env.ride_reply (select_ride id) t ≡ ok ride)
    (summed : env.int_reply (sum_billing req.ride_id) (select_ride id ∷ t) ≡ ok total) where
  abbrev summed_at : History
  summed_at = sum_billing req.ride_id ∷ select_ride id ∷ t

  -- A fresh id that is nil is replaced by the repository.
  abbrev fare_id : Uuid
  fare_id =
      if env.fresh_uuid summed_at == 0
      then env.fresh_uuid (now ∷ new_uuid ∷ summed_at)
      else env.fresh_uuid summed_at

  fare : Payment
  fare =
      let cost = adjusted_cost_of env total req.adjustment_factor in
      record {
        payment_id = fare_id;
        ride_id = ride.ride_id;
        adjusted_cost = cost;
        admin_fee = admin_fee_of env cost;
        driver_payout = sub_int cost (admin_fee_of env cost);
        status = PaymentStatus.pending;
        created_at = env.clock (new_uuid ∷ summed_at);
      }

  arrived_fare :
      (ride_arrived env req t).0 ≡ returned out
      → (ride.status ≡ RideStatus.ongoing)
        × (out.total_cost ≡ fare.adjusted_cost)
        × (payments (ride_arrived env req t).1 ≡ fare ∷ payments t)
  unfolding ride_arrived Repo.get_ride Repo.get_billing_ledger_sum Repo.create_payment payments fare
  arrived_fare h = ground arith

  fare_sum :
      ((x : Float64) → env.floats.to_int x < 2 ^ 64)
      → (fare.admin_fee + fare.driver_payout) % 2 ^ 64 ≡ fare.adjusted_cost
  unfolding fare adjusted_cost_of admin_fee_of
  fare_sum bounded = sub_int_add fare.adjusted_cost fare.admin_fee (bounded _) (bounded _)

  fare-IsFareOf : IsFareOf env req ride total fare
  unfolding fare
  fare-IsFareOf = (refl, refl, refl, refl)

-- When RideArrived returns, the ride was ongoing and one payment was stored: pending, for that ride
-- and the sum of its ledger; its fee and its payout add up to its cost on 64 bits, and the request
-- that is returned asks for that cost.
pub arrived_returned :
    (env : Env) (req : RideArrivalReq) (out : PaymentRequest) (t : History)
    → ((x : Float64) → env.floats.to_int x < 2 ^ 64)
    → (ride_arrived env req t).0 ≡ returned out
    → (id : Uuid) × (ride : Ride) × (total : Int64) × (p : Payment) × (env.ride_reply
          (select_ride id)
          t
        ≡ ok ride)
      × (env.int_reply (sum_billing req.ride_id) (select_ride id ∷ t) ≡ ok total)
      × (ride.status ≡ RideStatus.ongoing)
      × IsFareOf env req ride total p
      × ((p.admin_fee + p.driver_payout) % 2 ^ 64 ≡ p.adjusted_cost)
      × (out.total_cost ≡ p.adjusted_cost)
      × (payments (ride_arrived env req t).1 ≡ p ∷ payments t)
unfolding ride_arrived Repo.get_ride Repo.get_billing_ledger_sum Repo.create_payment payments
arrived_returned env req out t bounded h = elim (Result-cases (env.parse_uuid req.ride_id)) [
  | inr (x, e) ↦ absurd (ground arith)
  | inl (id, e) ↦ elim (Result-cases (env.ride_reply (select_ride id) t)) [
    | inr (x, r) ↦ absurd (ground arith)
    | inl (ride, r) ↦
        elim (Result-cases (env.int_reply (sum_billing req.ride_id) (select_ride id ∷ t))) [
          | inr (x, q) ↦ absurd (ground arith)
          | inl (total, q) ↦
              let (going, asked, sent) = arrived_fare env req out t id ride total e r q h in
              (
                id,
                ride,
                total,
                fare env req out t id ride total e r q,
                r,
                q,
                going,
                fare-IsFareOf env req out t id ride total e r q,
                fare_sum env req out t id ride total e r q bounded,
                asked,
                sent,
              )
        ]
  ]
]

-- When ProcessPayment returns, the ride was ongoing, the stored payment was pending and its amount
-- is the one that was sent; the payment is returned with the requested status.
pub paid_returned :
    (env : Env) (req : PaymentProccessRequest) (out : Payment) (t : History)
    → (process_payment env req t).0 ≡ returned out
    → (id : Uuid) × (ride : Ride) × (p : Payment) × (env.ride_reply (select_ride id) t ≡ ok ride)
      × (env.payment_reply (select_payment id) (select_ride id ∷ t) ≡ ok p)
      × (ride.status ≡ RideStatus.ongoing)
      × (p.status ≡ PaymentStatus.pending)
      × (p.adjusted_cost ≡ req.total_cost)
      × (out ≡ record p { status = req.status })
unfolding process_payment Repo.get_ride Repo.get_payment_by_ride_id Repo.update_payment_status
    Repo.complete_ride
paid_returned env req out t h = elim (Result-cases (env.parse_uuid req.ride_id)) [
  | inr (x, e) ↦ absurd (ground arith)
  | inl (id, e) ↦ elim (Result-cases (env.ride_reply (select_ride id) t)) [
    | inr (x, r) ↦ absurd (ground arith)
    | inl (ride, r) ↦
        elim (Result-cases (env.payment_reply (select_payment id) (select_ride id ∷ t))) [
          | inr (x, q) ↦ absurd (ground arith)
          | inl (p, q) ↦ (id, ride, p, r, q, ground arith, ground arith, ground arith, ground arith)
        ]
  ]
]

-- A payment that succeeds completes its ride exactly if its requested status is ACCEPTED.
pub paid_completes :
    (env : Env) (req : PaymentProccessRequest) (out : Payment) (t : History)
    → (process_payment env req t).0 ≡ returned out
    → status_updates (process_payment env req t).1 ≡ (
        if is_accepted req.status
        then RideStatus.completed ∷ status_updates t
        else status_updates t)
unfolding process_payment Repo.get_ride Repo.get_payment_by_ride_id Repo.update_payment_status
    Repo.complete_ride status_updates
paid_completes env req out t h = ground arith

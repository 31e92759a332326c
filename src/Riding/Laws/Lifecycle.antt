-- ===== src/Riding/Laws/Lifecycle.antt =====
-- The life of a ride: StartRide and ProcessPayment in services/rides/usecase/ride.go.
use nebengjek.Prelude.{inl, inr, ◌⊎◌, ◌∷◌, arith, Str, ◌≡◌}
use nebengjek.Riding.Repo
use nebengjek.Riding.Usecase.{
  process_billing_update, start_ride, ride_arrived, process_payment, create_ride,
}
use nebengjek.Riding.Env.{select_ride, Env, History}
use nebengjek.Domain.Rides.{
  Ride, PaymentProccessRequest, BillingLedger, RideArrivalReq, RideStartRequest, RideStatus,
}
use nebengjek.Domain.Matches.{MatchProposal}
use nebengjek.Riding.History.{status_updates}
use nebengjek.Domain.Places.{Uuid}
use nebengjek.Exec.{ok}
use nebengjek.Exec.Laws.{Result-cases}

-- A ride is picked up, goes on, and is completed.
pub data Edge : RideStatus → RideStatus → Type 0 where
  start : Edge RideStatus.driver_pickup RideStatus.ongoing
  finish : Edge RideStatus.ongoing RideStatus.completed

-- The requests that reach the use cases.
pub data Op : Type 0 where
  create : MatchProposal → Op
  bill : Str → BillingLedger → Op
  begin : RideStartRequest → Op
  arrive : RideArrivalReq → Op
  pay : PaymentProccessRequest → Op

abbrev pub run : {A : Type 0} → (History → A × History) → History → History
run m t = (m t).1

-- What a request leaves behind, however it ends.
pub after : Env → Op → History → History
after env (create mp) = run (create_ride env mp)
after env (bill id entry) = run (process_billing_update env id entry)
after env (begin req) = run (start_ride env req)
after env (arrive req) = run (ride_arrived env req)
after env (pay req) = run (process_payment env req)

-- Either no status was sent, or one was, along an edge from the status of the row that was read.
pub data Moves (env : Env) (t t' : History) : Type 0 where
  stays : status_updates t' ≡ status_updates t → Moves env t t'
  moves :
      (id : Uuid) (ride : Ride) (s : RideStatus)
      → env.ride_reply (select_ride id) t ≡ ok ride
      → Edge ride.status s
      → status_updates t' ≡ s ∷ status_updates t
      → Moves env t t'

create-Moves : (env : Env) (mp : MatchProposal) (t : History) → Moves env t (create_ride env mp t).1
unfolding create_ride Repo.create_ride status_updates
create-Moves env mp t = stays (ground arith)

bill-Moves :
    (env : Env) (id : Str) (e : BillingLedger) (t : History)
    → Moves env t (process_billing_update env id e t).1
unfolding process_billing_update Repo.get_ride Repo.add_billing_entry Repo.update_total_cost
    status_updates
bill-Moves env id e t = stays (ground arith)

arrive-Moves :
    (env : Env) (req : RideArrivalReq) (t : History) → Moves env t (ride_arrived env req t).1
unfolding ride_arrived Repo.get_ride Repo.get_billing_ledger_sum Repo.create_payment status_updates
arrive-Moves env req t = stays (ground arith)

-- A ride may move along the edge from `s` to `s'`, or stay.
abbrev MayMove : Env → Ride → RideStatus → RideStatus → History → History → Type 0
MayMove env ride s s' t t' =
    (status_updates t' ≡ status_updates t)
    ⊎ ((ride.status ≡ s) × (status_updates t' ≡ s' ∷ status_updates t))

begin_may :
    (env : Env) (req : RideStartRequest) (id : Uuid) (ride : Ride) (t : History)
    → env.parse_uuid req.ride_id ≡ ok id
    → env.ride_reply (select_ride id) t ≡ ok ride
    → MayMove env ride RideStatus.driver_pickup RideStatus.ongoing t (start_ride env req t).1
unfolding start_ride Repo.get_ride Repo.update_ride_status status_updates
begin_may env req id ride t p r = ground arith

begin-Moves :
    (env : Env) (req : RideStartRequest) (t : History) → Moves env t (start_ride env req t).1
unfolding start_ride Repo.get_ride Repo.update_ride_status status_updates
begin-Moves env req t = elim (Result-cases (env.parse_uuid req.ride_id)) [
  | inr (x, p) ↦ stays (ground arith)
  | inl (id, p) ↦ elim (Result-cases (env.ride_reply (select_ride id) t)) [
    | inr (x, r) ↦ stays (ground arith)
    | inl (ride, r) ↦ elim (begin_may env req id ride t p r) [
      | inl same ↦ stays same
      | inr (s, more) ↦ moves id ride RideStatus.ongoing r (rw s start) more
    ]
  ]
]

pay_may :
    (env : Env) (req : PaymentProccessRequest) (id : Uuid) (ride : Ride) (t : History)
    → env.parse_uuid req.ride_id ≡ ok id
    → env.ride_reply (select_ride id) t ≡ ok ride
    → MayMove env ride RideStatus.ongoing RideStatus.completed t (process_payment env req t).1
unfolding process_payment Repo.get_ride Repo.get_payment_by_ride_id Repo.update_payment_status
    Repo.complete_ride status_updates
pay_may env req id ride t p r = ground arith

pay-Moves :
    (env : Env) (req : PaymentProccessRequest) (t : History)
    → Moves env t (process_payment env req t).1
unfolding process_payment Repo.get_ride status_updates
pay-Moves env req t = elim (Result-cases (env.parse_uuid req.ride_id)) [
  | inr (x, p) ↦ stays (ground arith)
  | inl (id, p) ↦ elim (Result-cases (env.ride_reply (select_ride id) t)) [
    | inr (x, r) ↦ stays (ground arith)
    | inl (ride, r) ↦ elim (pay_may env req id ride t p r) [
      | inl same ↦ stays same
      | inr (s, more) ↦ moves id ride RideStatus.completed r (rw s finish) more
    ]
  ]
]

-- Whatever a request does, and however it ends, it sends at most one new status to the rides
-- table, and only along an edge from the status of the row that it read: a ride starts only from
-- PICKUP and completes only from ONGOING.
pub after-Moves : (env : Env) (op : Op) (t : History) → Moves env t (after env op t)
unfolding after
after-Moves env (create mp) t = create-Moves env mp t
after-Moves env (bill id entry) t = bill-Moves env id entry t
after-Moves env (begin req) t = begin-Moves env req t
after-Moves env (arrive req) t = arrive-Moves env req t
after-Moves env (pay req) t = pay-Moves env req t

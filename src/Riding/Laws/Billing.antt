-- ===== src/Riding/Laws/Billing.antt =====
-- Billing: ProcessBillingUpdate in services/rides/usecase/ride.go, and the fare that RideArrived
-- computes.
use nebengjek.Riding.Repo
use nebengjek.Prelude.{inl, inr, arith, ◌≤◌, ◌*◌, ◌+◌, ◌⊎◌, Str, str, ◌≡◌}
use nebengjek.Riding.Env.{select_ride, History, Env}
use nebengjek.Riding.Usecase.{process_billing_update}
use nebengjek.Riding.History.{totaled, billed}
use nebengjek.Domain.Rides.{RideStatus, Ride, BillingLedger}
use nebengjek.Exec.{Error, ok, returned, failed, wrap}
use nebengjek.Domain.Places.{Uuid}
use nebengjek.Exec.Laws.{Result-cases}

-- A billing update that succeeds was for an ongoing ride, and adds the cost of its entry once to
-- the ledger and once to the total.
pub billing_returned :
    (env : Env) (ride_id : Str) (entry : BillingLedger) (t : History)
    → (process_billing_update env ride_id entry t).0 ≡ returned tt
    → let t' = (process_billing_update env ride_id entry t).1 in
      (id : Uuid) × (ride : Ride) × (env.parse_uuid ride_id ≡ ok id)
      × (env.ride_reply (select_ride id) t ≡ ok ride)
      × (ride.status ≡ RideStatus.ongoing)
      × (billed env t' ≡ entry.cost + billed env t)
      × (totaled env t' ≡ entry.cost + totaled env t)
unfolding process_billing_update Repo.get_ride Repo.add_billing_entry Repo.update_total_cost billed
    totaled
billing_returned env ride_id entry t h = elim (Result-cases (env.parse_uuid ride_id)) [
  | inr (x, p) ↦ absurd (ground arith)
  | inl (id, p) ↦ elim (Result-cases (env.ride_reply (select_ride id) t)) [
    | inr (x, r) ↦ absurd (ground arith)
    | inl (ride, r) ↦ (id, ride, p, r, ground arith, ground arith, ground arith)
  ]
]

-- However an update ends, the total moves only if the ledger does, and neither by more than the
-- cost of the entry: a failure may leave the entry without the total, never the reverse.
pub billing_order :
    (env : Env) (ride_id : Str) (entry : BillingLedger) (t : History)
    → let t' = (process_billing_update env ride_id entry t).1 in
      (billed env t' ≡ billed env t) × (totaled env t' ≡ totaled env t)
      ⊎ (billed env t' ≡ entry.cost + billed env t)
        × (totaled env t' ≤ entry.cost + totaled env t)
        × (totaled env t ≤ totaled env t')
unfolding process_billing_update Repo.get_ride Repo.add_billing_entry Repo.update_total_cost billed
    totaled
billing_order env ride_id entry t = ground arith

-- What an update that fails for its total has done: the entry is in the ledger.
total_failed :
    (env : Env) (ride_id : Str) (entry : BillingLedger) (x : Error) (t : History)
    → (process_billing_update env ride_id entry t).0
      ≡ failed (wrap (str "failed to update total cost") x)
    → billed env (process_billing_update env ride_id entry t).1 ≡ entry.cost + billed env t
unfolding process_billing_update Repo.get_ride Repo.add_billing_entry Repo.update_total_cost billed
    str
total_failed env ride_id entry x t h = ground arith

-- A redelivered update bills twice: if it first fails for its total, whether the database refuses it
-- or does not answer, and the same message then succeeds, the ledger has grown by twice the cost,
-- while the success added the cost to the total once.
pub billing_redelivered :
    (env : Env) (ride_id : Str) (entry : BillingLedger) (x : Error) (t : History)
    → (process_billing_update env ride_id entry t).0
      ≡ failed (wrap (str "failed to update total cost") x)
    → (process_billing_update env ride_id entry (process_billing_update env ride_id entry t).1).0
      ≡ returned tt
    → let t' = (process_billing_update env ride_id entry t).1 in
      let t'' = (process_billing_update env ride_id entry t').1 in
      (billed env t'' ≡ 2 * entry.cost + billed env t)
      × (totaled env t'' ≡ entry.cost + totaled env t')
billing_redelivered env ride_id entry x t failing h =
    let (id, ride, p, r, s, b', c') =
      billing_returned env ride_id entry (process_billing_update env ride_id entry t).1 h in
    let b = total_failed env ride_id entry x t failing in (omega arith, c')

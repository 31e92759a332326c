-- ===== src/Riding/Repo.antt =====
-- The rides repository, services/rides/repository/ride.go.
use nebengjek.Prelude.{Str, str, ◌==◌, ◌++◌, if◌then◌else◌}
use nebengjek.Exec.{message, Exec, pure, call, of_result, wrapping, fail_if, ◌>>=◌, ◌>>◌}
use nebengjek.Domain.Places.{Int64, Uuid}
use nebengjek.Domain.Rides.{Ride, RideStatus, BillingLedger, Payment, PaymentStatus}
use nebengjek.Riding.Env.{
  Call, insert_ride, insert_billing_entry, add_total_cost, select_ride, sum_billing, insert_payment,
  select_payment, rows_affected, Env, send, time_now, uuid_new,
}

module _ (env : Env) where
  -- `if id == uuid.Nil { id = uuid.New() }`
  abbrev pub given_or_new : Uuid → Exec Call Uuid
  given_or_new id = if id == 0 then uuid_new env else pure id

  unfoldable pub create_ride : Ride → Exec Call Ride
  create_ride ride = do
    id ← given_or_new ride.ride_id
    t ← time_now env
    let stamped : Ride = record ride { ride_id = id; created_at = t; updated_at = t }
    send env (insert_ride stamped)
    pure stamped

  unfoldable pub add_billing_entry : BillingLedger → Exec Call (Unit {0})
  add_billing_entry entry = do
    id ← given_or_new entry.entry_id
    t ← time_now env
    wrapping (str "failed to insert billing entry")
        (send env (insert_billing_entry (record entry { entry_id = id }) t))

  -- An update of the one row of a ride: no row is an error.
  abbrev pub update_row : Str → Str → Call → Exec Call (Unit {0})
  update_row what ride_id c = do
    wrapping what (send env c)
    n ←
        wrapping (str "failed to get affected rows")
          (call rows_affected (env.count_reply rows_affected))
    fail_if (n == 0) (message (str "ride not found: " ++ ride_id))

  unfoldable pub update_total_cost : Str → Int64 → Exec Call (Unit {0})
  update_total_cost ride_id additional_cost =
      update_row (str "failed to update ride total cost") ride_id
        (add_total_cost additional_cost ride_id)

  unfoldable pub get_ride : Str → Exec Call Ride
  get_ride ride_id = do
    id ← wrapping (str "invalid ride ID format") (of_result (env.parse_uuid ride_id))
    wrapping (str "failed to get ride") (call (select_ride id) (env.ride_reply (select_ride id)))

  unfoldable pub complete_ride : Ride → Exec Call (Unit {0})
  complete_ride ride =
      update_row (str "failed to complete ride") (env.uuid_string ride.ride_id)
        (Call.complete_ride RideStatus.completed ride.ride_id)

  unfoldable pub get_billing_ledger_sum : Str → Exec Call Int64
  get_billing_ledger_sum ride_id =
      wrapping (str "failed to get billing ledger sum")
        (call (sum_billing ride_id) (env.int_reply (sum_billing ride_id)))

  unfoldable pub create_payment : Payment → Exec Call (Unit {0})
  create_payment payment = do
    id ← given_or_new payment.payment_id
    t ← time_now env
    wrapping (str "failed to create payment")
        (send env (insert_payment (record payment { payment_id = id }) t))

  unfoldable pub update_ride_status : Str → RideStatus → Exec Call (Unit {0})
  update_ride_status ride_id status =
      update_row (str "failed to update ride status") ride_id
        (Call.update_ride_status status ride_id)

  unfoldable pub get_payment_by_ride_id : Str → Exec Call Payment
  get_payment_by_ride_id ride_id = do
    id ← wrapping (str "invalid ride ID format") (of_result (env.parse_uuid ride_id))
    wrapping (str "failed to get payment for ride " ++ ride_id)
        (call (select_payment id) (env.payment_reply (select_payment id)))

  unfoldable pub update_payment_status : Str → PaymentStatus → Exec Call (Unit {0})
  update_payment_status payment_id status = do
    id ← wrapping (str "invalid payment ID format") (of_result (env.parse_uuid payment_id))
    wrapping (str "failed to update payment status")
        (send env (Call.update_payment_status status id))

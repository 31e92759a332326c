-- ===== src/Riding/Usecase.antt =====
-- The ride use cases, services/rides/usecase/ride.go.
use nebengjek.Prelude.{
  ◌+◌, ◌-◌, ◌%◌, ◌^◌, Str, str, ◌++◌, contains, format_int, Bool, true, false, not, ◌||◌, ◌==◌,
  Option, none, some, if◌then◌else◌,
}
use nebengjek.Exec.{
  Error, message, error_text, Result, ok, err, Exec, pure, fail, panic, attempt, of_result,
  wrapping, fail_if, ◌>>=◌, ◌>>◌,
}
use nebengjek.Domain.Places.{Float64, Int64, Uuid, Location}
use nebengjek.Domain.Floats.{FloatOps, zero_f, one_f, hundred_f, thousand_f}
use nebengjek.Domain.Geo.{GeoPoint, calculate_distance}
use nebengjek.Domain.Matches.{MatchProposal}
use nebengjek.Domain.Rides.{
  Ride, RideStatus, ride_status_text, BillingLedger, RideArrivalReq, Payment, PaymentStatus,
  payment_status_text, RideStartRequest, PaymentRequest, PaymentProccessRequest,
}
use nebengjek.Riding.Env.{
  Call, publish_ride_pickup, publish_ride_completed, Env, send, time_now, uuid_new,
}
use nebengjek.Riding.Repo

-- The error text of a violated unique constraint.
pub is_duplicate : Error → Bool
is_duplicate e =
    contains (error_text e) (str "rides_match_id_unique")
    || contains (error_text e) (str "duplicate key value violates unique constraint")

abbrev pub is_ongoing : RideStatus → Bool
is_ongoing RideStatus.ongoing = true
is_ongoing _ = false

abbrev pub is_pickup : RideStatus → Bool
is_pickup RideStatus.driver_pickup = true
is_pickup _ = false

abbrev pub is_pending : PaymentStatus → Bool
is_pending PaymentStatus.pending = true
is_pending _ = false

abbrev pub point_of : Location → GeoPoint
point_of l = record { latitude = l.latitude; longitude = l.longitude }

-- `if factor < 0 || factor > 1.0 { factor = 1.0 }`; a NaN stays.
abbrev pub valid_factor : FloatOps → Float64 → Float64
valid_factor ops f = if ops.lt f zero_f || ops.lt one_f f then one_f else f

-- `a - b` on int.
abbrev pub sub_int : Int64 → Int64 → Int64
sub_int a b = (a + 2 ^ 64 - b) % 2 ^ 64

module _ (env : Env) where
  new_ride : Uuid → Uuid → Uuid → Ride
  new_ride match_id driver_id passenger_id = record {
    ride_id = 0;
    match_id = match_id;
    driver_id = driver_id;
    passenger_id = passenger_id;
    status = RideStatus.driver_pickup;
    total_cost = 0;
    created_at = 0;
    updated_at = 0;
  }

  -- A duplicate is a success without an event.
  announce_created : Result Ride → Exec Call (Unit {0})
  unfolding is_duplicate
  announce_created (ok ride) = send env (publish_ride_pickup ride)
  announce_created (err e) = if is_duplicate e then pure tt else fail e

  unfoldable pub create_ride : MatchProposal → Exec Call (Unit {0})
  unfolding new_ride announce_created
  create_ride mp = do
    match_id ← wrapping (str "invalid match ID format") (of_result (env.parse_uuid mp.id))
    driver_id ← wrapping (str "invalid driver ID format") (of_result (env.parse_uuid mp.driver_id))
    passenger_id ←
        wrapping (str "invalid passenger ID format") (of_result (env.parse_uuid mp.passenger_id))
    created ← attempt (Repo.create_ride env (new_ride match_id driver_id passenger_id))
    announce_created created

  unfoldable pub process_billing_update : Str → BillingLedger → Exec Call (Unit {0})
  process_billing_update ride_id entry = do
    ride ← wrapping (str "failed to get ride") (Repo.get_ride env ride_id)
    fail_if (not (is_ongoing ride.status))
        (message (str "cannot update billing for non-active ride"))
    id ← wrapping (str "invalid ride ID format") (of_result (env.parse_uuid ride_id))
    wrapping (str "failed to add billing entry")
        (Repo.add_billing_entry env (record entry { ride_id = id }))
    wrapping (str "failed to update total cost") (Repo.update_total_cost env ride_id entry.cost)

  -- `*p`; a nil pointer panics.
  abbrev pub deref {ℓ} : {A : Type ℓ} → Option A → Exec Call A
  deref none = panic
  deref (some a) = pure a

  unfoldable pub distance_meters : Location → Location → Float64
  distance_meters d p =
      env.floats.mul (calculate_distance env.floats (point_of d) (point_of p)) thousand_f

  unfoldable pub start_ride : RideStartRequest → Exec Call Ride
  unfolding distance_meters
  start_ride req = do
    ride ← wrapping (str "failed to get ride") (Repo.get_ride env req.ride_id)
    fail_if (not (is_pickup ride.status)) (
        message (
          str "cannot start trip for ride not in driver_pickup state, current status: "
          ++ ride_status_text ride.status))
    driver ← deref req.driver_location
    passenger ← deref req.passenger_location
    let meters = distance_meters driver passenger
    fail_if (env.floats.lt hundred_f meters) (
        message (
          str "driver is too far from passenger ("
          ++ (env.floats.format_two meters ++ str " meters)")))
    wrapping (str "failed to update ride status to ongoing")
        (Repo.update_ride_status env (env.uuid_string ride.ride_id) RideStatus.ongoing)
    pure (record ride { status = RideStatus.ongoing })

  -- `int(float64(n) * x)`
  abbrev pub scaled : Int64 → Float64 → Int64
  scaled n x = env.floats.to_int (env.floats.mul (env.floats.of_int n) x)

  unfoldable pub adjusted_cost_of : Int64 → Float64 → Int64
  adjusted_cost_of total factor = scaled total (valid_factor env.floats factor)

  unfoldable pub admin_fee_of : Int64 → Int64
  admin_fee_of adjusted = scaled adjusted (env.floats.div env.cfg.admin_fee_percent hundred_f)

  unfoldable pub qr_code_url_of : Str → Int64 → Str → Str
  qr_code_url_of ride_id amount passenger_id =
      env.cfg.qr_code_base_url
      ++ (str "?ride_id="
          ++ (ride_id
              ++ (str "&amount=" ++ (format_int amount ++ (str "&passenger_id=" ++ passenger_id)))))

  unfoldable pub ride_arrived : RideArrivalReq → Exec Call PaymentRequest
  ride_arrived req = do
    ride ← wrapping (str "failed to get ride") (Repo.get_ride env req.ride_id)
    fail_if (not (is_ongoing ride.status))
        (message (str "cannot process arrival for ride that is not ongoing"))
    total ←
        wrapping (str "failed to calculate total cost")
          (Repo.get_billing_ledger_sum env req.ride_id)
    let adjusted = adjusted_cost_of total req.adjustment_factor
    let fee = admin_fee_of adjusted
    id ← uuid_new env
    t ← time_now env
    wrapping (str "failed to create payment record") (
        Repo.create_payment env (record {
          payment_id = id;
          ride_id = ride.ride_id;
          adjusted_cost = adjusted;
          admin_fee = fee;
          driver_payout = sub_int adjusted fee;
          status = PaymentStatus.pending;
          created_at = t;
        }))
    pure (record {
      ride_id = req.ride_id;
      passenger_id = env.uuid_string ride.passenger_id;
      total_cost = adjusted;
      qr_code_url = qr_code_url_of req.ride_id adjusted (env.uuid_string ride.passenger_id);
    })

  total_mismatch : Int64 → Int64 → Error
  total_mismatch expected got = message (
      str "total cost mismatch: expected "
      ++ (format_int expected ++ (str ", got " ++ format_int got)))

  -- Only an accepted payment completes the ride; a failed event is logged.
  complete_if_accepted : PaymentStatus → Ride → Payment → Exec Call (Unit {0})
  complete_if_accepted PaymentStatus.accepted ride payment = do
    let done : Ride = record ride { status = RideStatus.completed }
    wrapping (str "failed to mark ride as completed") (Repo.complete_ride env done)
    attempt (send env (publish_ride_completed (record { ride = done; payment = payment })))
    pure tt
  complete_if_accepted _ ride payment = pure tt

  unfoldable pub process_payment : PaymentProccessRequest → Exec Call Payment
  unfolding total_mismatch complete_if_accepted
  process_payment req = do
    ride ← wrapping (str "failed to get ride") (Repo.get_ride env req.ride_id)
    fail_if (not (is_ongoing ride.status))
        (message (str "cannot process payment for ride that is not ongoing"))
    payment ←
        wrapping (str "failed to get payment record") (Repo.get_payment_by_ride_id env req.ride_id)
    fail_if (not (is_pending payment.status))
        (message (str "cannot process payment with status: " ++ payment_status_text payment.status))
    fail_if (not (req.total_cost == payment.adjusted_cost))
        (total_mismatch payment.adjusted_cost req.total_cost)
    wrapping (str "failed to update payment status")
        (Repo.update_payment_status env (env.uuid_string payment.payment_id) req.status)
    let settled : Payment = record payment { status = req.status }
    complete_if_accepted req.status ride settled
    pure settled

-- ===== src/Riding/Env.antt =====
-- What the rides service calls outside its own code: the statements that
-- services/rides/repository/ride.go sends to PostgreSQL, the events of RideGW
-- (services/rides/gateway.go), the clock and new UUIDs.
use nebengjek.Prelude.{ℕ, Str, List}
use nebengjek.Exec.{Result, Ok, Exec, call}
use nebengjek.Domain.Places.{Float64, Int64, Time, Uuid}
use nebengjek.Domain.Floats.{FloatOps}
use nebengjek.Domain.Rides.{Ride, RideStatus, BillingLedger, Payment, PaymentStatus, RideComplete}

pub data Call : Type 0 where
  now : Call
  new_uuid : Call
  insert_ride : Ride → Call
  insert_billing_entry : BillingLedger → Time → Call
  -- `UPDATE rides SET total_cost = total_cost + $1 ... WHERE ride_id = $2`
  add_total_cost : Int64 → Str → Call
  select_ride : Uuid → Call
  -- `UPDATE rides SET status = $1 ... WHERE ride_id = $2`, with the id as a UUID or as text
  complete_ride : RideStatus → Uuid → Call
  update_ride_status : RideStatus → Str → Call
  -- `SELECT SUM(cost) FROM billing_ledger WHERE ride_id = $1`
  sum_billing : Str → Call
  insert_payment : Payment → Time → Call
  select_payment : Uuid → Call
  update_payment_status : PaymentStatus → Uuid → Call
  rows_affected : Call
  publish_ride_pickup : Ride → Call
  publish_ride_completed : RideComplete → Call

abbrev pub History : Type 0
History = List Call

-- `cfg.Pricing`, `cfg.Payment` and `cfg.Rides`
pub record RideConfig : Type 0 where
  pub admin_fee_percent : Float64
  pub rate_per_km : Float64
  pub min_distance_km : Float64
  pub qr_code_base_url : Str

-- The replies. Each may depend on all that was called before.
pub record Env : Type 0 where
  pub clock : History → Time
  pub fresh_uuid : History → Uuid
  pub parse_uuid : Str → Result Uuid
  pub uuid_string : Uuid → Str
  pub reply : Call → History → Ok
  pub count_reply : Call → History → Result ℕ
  pub int_reply : Call → History → Result Int64
  pub ride_reply : Call → History → Result Ride
  pub payment_reply : Call → History → Result Payment
  pub floats : FloatOps
  pub cfg : RideConfig

module _ (env : Env) where
  abbrev pub send : Call → Exec Call (Unit {0})
  send c = call c (env.reply c)

  abbrev pub time_now : Exec Call Time
  time_now t = call now (λ h. Result.ok (env.clock h)) t

  abbrev pub uuid_new : Exec Call Uuid
  uuid_new t = call new_uuid (λ h. Result.ok (env.fresh_uuid h)) t

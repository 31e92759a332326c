-- ===== src/Riding/History.antt =====
-- Views of a history of the rides service.
use nebengjek.Prelude.{false, true, Bool, ◌+◌, ◌∷◌, List, ℕ, []}
use nebengjek.Riding.Env.{
  insert_payment, update_payment_status, complete_ride, insert_billing_entry, add_total_cost,
  update_ride_status, publish_ride_pickup, History, Env,
}
use nebengjek.Domain.Rides.{Payment, PaymentStatus, Ride, RideStatus}
use nebengjek.Exec.{err, ok}

-- The new statuses that were sent to the rides table, the newest first.
unfoldable pub status_updates : History → List RideStatus
status_updates [] = []
status_updates (update_ride_status s id ∷ t) = s ∷ status_updates t
status_updates (complete_ride s id ∷ t) = s ∷ status_updates t
status_updates (c ∷ t) = status_updates t

-- The sum of the costs of the billing entries that were acknowledged, and that of the additions to
-- the total cost.
unfoldable pub billed : Env → History → ℕ
billed env [] = 0
billed env (insert_billing_entry e n ∷ t) = elim (env.reply (insert_billing_entry e n) t) [
  | ok u ↦ e.cost + billed env t
  | err x ↦ billed env t
]
billed env (c ∷ t) = billed env t

unfoldable pub totaled : Env → History → ℕ
totaled env [] = 0
totaled env (add_total_cost n id ∷ t) = elim (env.reply (add_total_cost n id) t) [
  | ok u ↦ n + totaled env t
  | err x ↦ totaled env t
]
totaled env (c ∷ t) = totaled env t

-- The pickup events that were published, the newest first.
unfoldable pub pickups : History → List Ride
pickups [] = []
pickups (publish_ride_pickup r ∷ t) = r ∷ pickups t
pickups (c ∷ t) = pickups t

-- The payments that were sent to the table, the newest first.
unfoldable pub payments : History → List Payment
payments [] = []
payments (insert_payment p n ∷ t) = p ∷ payments t
payments (c ∷ t) = payments t

abbrev pub is_accepted : PaymentStatus → Bool
is_accepted PaymentStatus.accepted = true
is_accepted _ = false

-- The new statuses that were sent to the payments table, the newest first.
unfoldable pub payment_updates : History → List PaymentStatus
payment_updates [] = []
payment_updates (update_payment_status s id ∷ t) = s ∷ payment_updates t
payment_updates (c ∷ t) = payment_updates t

-- The pickup events whose publication was acknowledged, the newest first.
unfoldable pub announced : Env → History → List Ride
announced env [] = []
announced env (publish_ride_pickup r ∷ t) = elim (env.reply (publish_ride_pickup r) t) [
  | ok u ↦ r ∷ announced env t
  | err x ↦ announced env t
]
announced env (c ∷ t) = announced env t

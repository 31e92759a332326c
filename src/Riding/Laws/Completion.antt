-- ===== src/Riding/Laws/Completion.antt =====
-- A payment is taken once: ProcessPayment of services/rides/usecase/ride.go, called again.
use nebengjek.Riding.Repo
use nebengjek.Prelude.{inl, inr, ◌∷◌, arith, ◌≡◌, ◌≢◌}
use nebengjek.Exec.{failed, Error, ok, returned}
use nebengjek.Riding.Usecase.{process_payment}
use nebengjek.Riding.Env.{select_ride, select_payment, History, Env}
use nebengjek.Domain.Rides.{PaymentStatus, Payment, PaymentProccessRequest}
use nebengjek.Riding.History.{payment_updates, status_updates}
use nebengjek.Domain.Places.{Uuid}
use nebengjek.Riding.Laws.Payments.{paid_returned}
use nebengjek.Exec.Laws.{Outcome-cases}

-- A payment that is no longer pending cannot be processed.
refused :
    (env : Env) (req : PaymentProccessRequest) (id : Uuid) (p : Payment) (t : History)
    → env.parse_uuid req.ride_id ≡ ok id
    → env.payment_reply (select_payment id) (select_ride id ∷ t) ≡ ok p
    → p.status ≢ PaymentStatus.pending
    → (e : Error) × ((process_payment env req t).0 ≡ failed e)
      × (status_updates (process_payment env req t).1 ≡ status_updates t)
      × (payment_updates (process_payment env req t).1 ≡ payment_updates t)
unfolding process_payment Repo.get_ride Repo.get_payment_by_ride_id status_updates payment_updates
refused env req id p t a b n = elim (Outcome-cases (process_payment env req t).0) [
  | inl (out, r) ↦ absurd (ground arith)
  | inr (inl (e, f)) ↦ (e, f, ground arith, ground arith)
  | inr (inr bad) ↦ absurd (ground arith)
]

-- A payment that was processed, to another status than PENDING, is not taken again: if the table
-- then shows it, every further request for the ride fails, whatever its amount and status, and
-- sends no status, neither for the ride nor for the payment.
pub paid_once :
    (env : Env) (req req2 : PaymentProccessRequest) (id : Uuid) (out : Payment) (t : History)
    → env.parse_uuid req.ride_id ≡ ok id
    → req2.ride_id ≡ req.ride_id
    → req.status ≢ PaymentStatus.pending
    → (process_payment env req t).0 ≡ returned out
    → let t' = (process_payment env req t).1 in
      env.payment_reply (select_payment id) (select_ride id ∷ t') ≡ ok out
      → (e : Error) × ((process_payment env req2 t').0 ≡ failed e)
        × (status_updates (process_payment env req2 t').1 ≡ status_updates t')
        × (payment_updates (process_payment env req2 t').1 ≡ payment_updates t')
paid_once env req req2 id out t a same n h shown =
    let (i, ride, p, r, q, g, w, c, stored) = paid_returned env req out t h in
    refused env req2 id out (process_payment env req t).1 (rw same a) shown
      (λ pending. n (ground (arith, stored, pending)))

-- ===== src/Locating/Deliveries.antt =====
-- The handler of services/location/handler/nats.go that the consumer calls.
use nebengjek.Prelude.{Str, str, List, Bool}
use nebengjek.Exec.{Result, Outcome}
use nebengjek.Domain.Rides.{LocationUpdate}
use nebengjek.Nats.Delivery.{Message, Note, in_transaction}
use nebengjek.Locating.Env.{Call, Env}
use nebengjek.Locating.Usecase.{handle_location_update}

module _ (env : Env) (live : Bool) where
  unfoldable pub handle_location_update_js :
      (Str → Result LocationUpdate)
      → Message
      → List Call
      → (Outcome (Unit {0}) × List Call) × List Note
  handle_location_update_js decode =
      in_transaction live (str "NATS.Location.HandleLocationUpdate") (str "location")
        (handle_location_update env decode)

-- ===== src/Matching/Deliveries.antt =====
-- The handlers of services/match/handler/nats/nats.go that the consumers call.
use nebengjek.Prelude.{Str, str, List, Bool}
use nebengjek.Exec.{Result, Outcome}
use nebengjek.Domain.Events.{BeaconEvent, FinderEvent}
use nebengjek.Domain.Rides.{RideResp, RideComplete}
use nebengjek.Nats.Delivery.{Message, Note, in_transaction}
use nebengjek.Matching.Env.{Call, Env}
use nebengjek.Matching.Handler.{
  handle_beacon_event, handle_finder_event, handle_ride_pickup, handle_ride_completed,
}

module _ (env : Env) (live : Bool) where
  abbrev pub Delivered : Type 0
  Delivered = Message → List Call → (Outcome (Unit {0}) × List Call) × List Note

  unfoldable pub handle_beacon_event_js : (Str → Result BeaconEvent) → Delivered
  handle_beacon_event_js decode =
      in_transaction live (str "NATS.Match.HandleBeaconEvent") (str "match")
        (handle_beacon_event env decode)

  unfoldable pub handle_finder_event_js : (Str → Result FinderEvent) → Delivered
  handle_finder_event_js decode =
      in_transaction live (str "NATS.Match.HandleFinderEvent") (str "match")
        (handle_finder_event env decode)

  unfoldable pub handle_ride_pickup_js : (Str → Result RideResp) → Delivered
  handle_ride_pickup_js decode =
      in_transaction live (str "NATS.Match.HandleRidePickup") (str "match")
        (handle_ride_pickup env decode)

  unfoldable pub handle_ride_completed_js : (Str → Result RideComplete) → Delivered
  handle_ride_completed_js decode =
      in_transaction live (str "NATS.Match.HandleRideCompleted") (str "match")
        (handle_ride_completed env decode)

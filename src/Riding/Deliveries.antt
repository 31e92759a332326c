-- ===== src/Riding/Deliveries.antt =====
-- The handlers of services/rides/handler/nats/nats.go that the consumers call.
use nebengjek.Prelude.{Str, str, List, Bool}
use nebengjek.Exec.{Result, Outcome}
use nebengjek.Domain.Matches.{MatchProposal}
use nebengjek.Domain.Rides.{LocationAggregate}
use nebengjek.Nats.Delivery.{Message, Note, in_transaction}
use nebengjek.Riding.Env.{Call, Env}
use nebengjek.Riding.Handler.{handle_match_accepted, handle_location_aggregate}

module _ (env : Env) (live : Bool) where
  abbrev pub Delivered : Type 0
  Delivered = Message → List Call → (Outcome (Unit {0}) × List Call) × List Note

  unfoldable pub handle_match_accepted_js : (Str → Result MatchProposal) → Delivered
  handle_match_accepted_js decode =
      in_transaction live (str "NATS.Rides.HandleMatchAccepted") (str "rides")
        (handle_match_accepted env decode)

  unfoldable pub handle_location_aggregate_js : (Str → Result LocationAggregate) → Delivered
  handle_location_aggregate_js decode =
      in_transaction live (str "NATS.Rides.HandleLocationAggregate") (str "rides")
        (handle_location_aggregate env decode)

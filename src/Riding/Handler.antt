-- ===== src/Riding/Handler.antt =====
-- services/rides/handler/nats/nats.go: what the rides service does with a message. The decoding of
-- JSON is a parameter; an error makes the consumer deliver the message again.
use nebengjek.Prelude.{Str, str, if◌then◌else◌}
use nebengjek.Exec.{Result, Exec, pure, of_result, wrapping, ◌>>=◌}
use nebengjek.Domain.Places.{Int64, Float64, Uuid}
use nebengjek.Domain.Matches.{MatchProposal}
use nebengjek.Domain.Rides.{BillingLedger, LocationAggregate}
use nebengjek.Riding.Env.{Call, Env}
use nebengjek.Riding.Usecase

module _ (env : Env) where
  unfoldable pub handle_match_accepted : (Str → Result MatchProposal) → Str → Exec Call (Unit {0})
  handle_match_accepted decode msg = do mp ← of_result (decode msg); Usecase.create_ride env mp

  -- `int(math.Round(update.Distance * h.cfg.Pricing.RatePerKm))`
  unfoldable pub cost_of : Float64 → Int64
  cost_of distance =
      env.floats.to_int (env.floats.round (env.floats.mul distance env.cfg.rate_per_km))

  -- The fields that are not given are zero: the repository sets a new id.
  unfoldable pub entry_of : Uuid → Float64 → BillingLedger
  entry_of ride_id distance = record {
    entry_id = 0;
    ride_id = ride_id;
    distance = distance;
    cost = cost_of distance;
    created_at = 0;
  }

  bill_aggregate : LocationAggregate → Exec Call (Unit {0})
  bill_aggregate update = do
    id ← wrapping (str "invalid ride ID") (of_result (env.parse_uuid update.ride_id))
    Usecase.process_billing_update env update.ride_id (entry_of id update.distance)

  -- A distance below the minimum is not billed.
  unfoldable pub handle_location_aggregate :
      (Str → Result LocationAggregate) → Str → Exec Call (Unit {0})
  unfolding bill_aggregate
  handle_location_aggregate decode msg = do
    update ← of_result (decode msg)
    if env.floats.le env.cfg.min_distance_km update.distance then bill_aggregate update else pure tt

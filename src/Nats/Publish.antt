-- ===== src/Nats/Publish.antt =====
-- Publishing: PublishWithOptions of internal/pkg/nats/client.go, and the gateways
-- services/match/gateway/nats/nats.go, services/users/gateway/nats/nats.go and
-- services/location/gateway/nats.go. The encoding of JSON is an argument.
use nebengjek.Prelude.{◌*◌, Str, str, List, [], ◌∷◌, ◌++◌, ℕ}
use nebengjek.Exec.{Result, Ok, Exec, call, of_result, wrapping, ◌>>=◌}
use nebengjek.Domain.Events.{BeaconEvent, FinderEvent}
use nebengjek.Domain.Matches.{MatchProposal}
use nebengjek.Domain.Rides.{LocationUpdate, LocationAggregate, RideStartTripEvent}

-- What is sent: the headers and the expected sequence number are never given.
pub record PublishOptions : Type 0 where
  pub subject : Str
  pub payload : Str
  pub msg_id : Str
  -- in nanoseconds
  pub timeout : ℕ

pub data Call : Type 0 where
  now : Call
  publish_msg : PublishOptions → Call

abbrev pub History : Type 0
History = List Call

pub record Env : Type 0 where
  -- `time.Now().UnixNano()`, printed
  pub unix_nano : History → Str
  pub publish_reply : PublishOptions → History → Ok

abbrev pub seconds : ℕ → ℕ
seconds n = n * 1000000000

module _ (env : Env) where
  unfoldable pub publish_with_options : PublishOptions → Exec Call (Unit {0})
  publish_with_options opts =
      wrapping (str "failed to publish message to subject " ++ opts.subject)
        (call (publish_msg opts) (env.publish_reply opts))

  -- `Publish`: without an id.
  unfoldable pub publish : Str → Str → Exec Call (Unit {0})
  unfolding publish_with_options
  publish subject payload =
      publish_with_options
        (record { subject = subject; payload = payload; msg_id = []; timeout = seconds 10 })

  -- The steps that all gateways take: `what` is in their errors, `prefix` and `id` in the id.
  unfoldable pub publish_event : Str → Str → Str → Str → Str → ℕ → Result Str → Exec Call (Unit {0})
  unfolding publish_with_options
  publish_event marshaling publishing subject prefix id timeout json = do
    payload ← wrapping (str "failed to marshal " ++ marshaling) (of_result json)
    t ← call now (λ h. Result.ok (env.unix_nano h))
    wrapping (str "failed to publish " ++ publishing) (
        publish_with_options (record {
          subject = subject;
          payload = payload;
          msg_id = prefix ++ (b'-' ∷ (id ++ (b'-' ∷ t)));
          timeout = timeout;
        }))

  unfoldable pub publish_match_found :
      (MatchProposal → Result Str) → MatchProposal → Exec Call (Unit {0})
  unfolding publish_event
  publish_match_found encode p =
      publish_event (str "match proposal") (str "match found event") (str "match.found")
        (str "match-found") p.id (seconds 10) (encode p)

  unfoldable pub publish_match_rejected :
      (MatchProposal → Result Str) → MatchProposal → Exec Call (Unit {0})
  unfolding publish_event
  publish_match_rejected encode p =
      publish_event (str "match proposal") (str "match rejected event") (str "match.rejected")
        (str "match-rejected") p.id (seconds 10) (encode p)

  unfoldable pub publish_match_accepted :
      (MatchProposal → Result Str) → MatchProposal → Exec Call (Unit {0})
  unfolding publish_event
  publish_match_accepted encode p =
      publish_event (str "match proposal") (str "match accepted event") (str "match.accepted")
        (str "match-accepted") p.id (seconds 15) (encode p)

  unfoldable pub publish_beacon_event :
      (BeaconEvent → Result Str) → BeaconEvent → Exec Call (Unit {0})
  unfolding publish_event
  publish_beacon_event encode event =
      publish_event (str "beacon event") (str "beacon event") (str "user.beacon") (str "beacon")
        event.user_id (seconds 10) (encode event)

  unfoldable pub publish_finder_event :
      (FinderEvent → Result Str) → FinderEvent → Exec Call (Unit {0})
  unfolding publish_event
  publish_finder_event encode event =
      publish_event (str "finder event") (str "finder event") (str "user.finder") (str "finder")
        event.user_id (seconds 10) (encode event)

  unfoldable pub publish_ride_start :
      (RideStartTripEvent → Result Str) → RideStartTripEvent → Exec Call (Unit {0})
  unfolding publish_event
  publish_ride_start encode event =
      publish_event (str "ride start event") (str "ride start event") (str "ride.started")
        (str "ride-start") event.ride_id (seconds 10) (encode event)

  unfoldable pub publish_location_update :
      (LocationUpdate → Result Str) → LocationUpdate → Exec Call (Unit {0})
  unfolding publish_event
  publish_location_update encode event =
      publish_event (str "location update") (str "location update") (str "location.update")
        (str "location") event.ride_id (seconds 5) (encode event)

  unfoldable pub publish_location_aggregate :
      (LocationAggregate → Result Str) → LocationAggregate → Exec Call (Unit {0})
  unfolding publish_event
  publish_location_aggregate encode aggregate =
      publish_event (str "location aggregate") (str "location aggregate") (str "location.aggregate")
        (str "location-aggregate") aggregate.ride_id (seconds 10) (encode aggregate)

-- ===== src/Tests/Messages.antt =====
-- The theorems about messages of the rides service at concrete inputs.
use nebengjek.Riding.Repo
use nebengjek.Riding.Usecase
use nebengjek.Prelude.{contains, str, Str, refl, [], ◌∷◌, ◌≡◌}
use nebengjek.Tests.RideWorld.{proposal, duplicate_error, ride_world, message_world}
use nebengjek.Riding.Env.{Env}
use nebengjek.Riding.Handler.{entry_of, handle_location_aggregate, handle_match_accepted}
use nebengjek.Domain.Rides.{RideStatus, LocationAggregate}
use nebengjek.Riding.Laws.Messages.{pickup_lost, IsTaken}
use nebengjek.Exec.{error_text, external, failed, returned, ok, Result}
use nebengjek.Riding.History.{announced}
use nebengjek.Domain.Matches.{MatchProposal}

abbrev decode_proposal : Str → Result MatchProposal
decode_proposal msg = ok proposal

first-IsTaken :
    IsTaken message_world 4 (handle_match_accepted message_world decode_proposal [] []).1
unfolding handle_match_accepted Usecase.create_ride Repo.create_ride contains error_text str
first-IsTaken r e = (duplicate_error, refl, refl)

-- The publication of the pickup fails.
publication_fails :
    (handle_match_accepted message_world decode_proposal [] []).0
    ≡ failed (external (str "nats: timeout"))
unfolding handle_match_accepted Usecase.create_ride Repo.create_ride
publication_fails = refl

pickup_lost_example :
    let t' = (handle_match_accepted message_world decode_proposal [] []).1 in
    let (again, t'') = handle_match_accepted message_world decode_proposal [] t' in
    (again ≡ returned tt) × (announced message_world t'' ≡ announced message_world [])
pickup_lost_example =
    pickup_lost message_world decode_proposal [] proposal 4 2 3 (external (str "nats: timeout")) []
      refl refl refl refl publication_fails first-IsTaken

abbrev going : Env
going = ride_world RideStatus.ongoing

abbrev segment : LocationAggregate
segment = record { ride_id = 1 ∷ []; distance = 2; latitude = 0; longitude = 0 }

abbrev decode_segment : Str → Result LocationAggregate
decode_segment msg = ok segment

bills_segment : (handle_location_aggregate going decode_segment [] []).0 ≡ returned tt
unfolding handle_location_aggregate Usecase.process_billing_update Repo.get_ride
    Repo.add_billing_entry Repo.update_total_cost entry_of
bills_segment = refl

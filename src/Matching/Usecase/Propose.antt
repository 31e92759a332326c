-- ===== src/Matching/Usecase/Propose.antt =====
-- services/match/usecase/match.go: proposing matches to nearby drivers, with HandleFinderEvent.
use nebengjek.Prelude.{
  Str, str, Bool, true, false, Option, none, some, List, [], ◌∷◌, if◌then◌else◌,
}
use nebengjek.Exec.{Result, ok, err, Exec, pure, call, attempt, wrapping, ◌>>=◌, ◌>>◌}
use nebengjek.Domain.Places.{Uuid, Location, zero_location}
use nebengjek.Domain.Events.{FinderEvent}
use nebengjek.Domain.Matches.{pending, Match, MatchProposal, NearbyUser}
use nebengjek.Matching.Env.{
  Call, add_available_passenger, find_nearby_drivers, publish_match_found, Env, send, time_now,
}
use nebengjek.Matching.Repo.Create
use nebengjek.Matching.Usecase.Pool.{position, has_active_ride, handle_inactive_user}

-- internal/pkg/converter/string.go: what is no UUID becomes `uuid.Nil`.
pub str_to_uuid : Env → Str → Uuid
str_to_uuid env s = elim (env.parse_uuid s) [ ok u ↦ u | err e ↦ 0 ]

-- `if targetLocation != nil { match.TargetLocation = *targetLocation }`
abbrev pub or_zero : Option Location → Location
or_zero none = zero_location
or_zero (some l) = l

module _ (env : Env) where
  unfoldable pub build_match : Str → Str → Location → Location → Option Location → Exec Call Match
  unfolding str_to_uuid
  build_match driver_id passenger_id driver_location passenger_location target_location = do
    created ← time_now env
    updated ← time_now env
    pure (record {
      id = 0;
      driver_id = str_to_uuid env driver_id;
      passenger_id = str_to_uuid env passenger_id;
      driver_location = driver_location;
      passenger_location = passenger_location;
      target_location = or_zero target_location;
      status = pending;
      driver_confirmed = false;
      passenger_confirmed = false;
      created_at = created;
      updated_at = updated;
    })

  unfoldable pub build_match_proposal : Match → MatchProposal
  build_match_proposal m = record {
    id = env.uuid_string m.id;
    passenger_id = env.uuid_string m.passenger_id;
    driver_id = env.uuid_string m.driver_id;
    user_location = m.passenger_location;
    driver_location = m.driver_location;
    target_location = m.target_location;
    match_status = m.status;
  }

  unfoldable pub create_match : Match → Exec Call (Unit {0})
  unfolding build_match_proposal
  create_match m = do
    created ← wrapping (str "failed to create match") (Create.create_match env m)
    wrapping (str "failed to publish match proposal")
        (send env (publish_match_found (build_match_proposal created)))

  -- One round of the loop: an error is logged, and the loop goes on.
  unfoldable pub propose_to : Str → Location → Option Location → NearbyUser → Exec Call (Unit {0})
  unfolding build_match create_match
  propose_to passenger_id passenger_location target_location driver = do
    m ← build_match driver.id passenger_id driver.location passenger_location target_location
    attempt (create_match m)
    pure tt

  unfoldable pub propose_to_all :
      Str → Location → Option Location → List NearbyUser → Exec Call (Unit {0})
  propose_to_all passenger_id passenger_location target_location [] = pure tt
  propose_to_all passenger_id passenger_location target_location (driver ∷ drivers) =
      propose_to passenger_id passenger_location target_location driver
      >> propose_to_all passenger_id passenger_location target_location drivers

  unfoldable pub create_matches_with_nearby_drivers :
      Str → Location → Option Location → Exec Call (Unit {0})
  create_matches_with_nearby_drivers passenger_id passenger_location target_location = do
    let query = find_nearby_drivers passenger_location env.cfg.search_radius_km
    drivers ← call query (env.nearby_reply query)
    propose_to_all passenger_id passenger_location target_location drivers

  unfoldable pub handle_active_passenger_with_target :
      FinderEvent → Location → Option Location → Exec Call (Unit {0})
  handle_active_passenger_with_target event location target_location = do
    send env (add_available_passenger event.user_id location)
    create_matches_with_nearby_drivers event.user_id location target_location

  -- A failed check does not stop the passenger from being matched.
  match_unless_riding : FinderEvent → Result Bool → Exec Call (Unit {0})
  match_unless_riding event (ok true) = pure tt
  match_unless_riding event (ok false) =
      handle_active_passenger_with_target event (position event.location)
        (some (position event.target_location))
  match_unless_riding event (err e) =
      handle_active_passenger_with_target event (position event.location)
        (some (position event.target_location))

  handle_active_finder : FinderEvent → Exec Call (Unit {0})
  unfolding match_unless_riding
  handle_active_finder event = do
    riding ← attempt (has_active_ride env event.user_id false)
    match_unless_riding event riding

  unfoldable pub handle_finder_event : FinderEvent → Exec Call (Unit {0})
  unfolding handle_active_finder
  handle_finder_event event =
      if event.is_active
      then handle_active_finder event
      else handle_inactive_user env event.user_id (str "passenger")

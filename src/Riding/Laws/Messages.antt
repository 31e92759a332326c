-- ===== src/Riding/Laws/Messages.antt =====
-- Messages of the rides service and their redelivery: services/rides/handler/nats/nats.go.
use nebengjek.Riding.Repo
use nebengjek.Riding.Usecase
use nebengjek.Prelude.{Bool-cases, ◌+◌, false, true, refl, inl, inr, ◌⊎◌, ◌∷◌, arith, Str, ◌≡◌}
use nebengjek.Exec.{Result, failed, Error, ok, err, returned}
use nebengjek.Riding.Env.{select_ride, new_uuid, insert_ride, History, Env, now}
use nebengjek.Domain.Places.{Uuid}
use nebengjek.Domain.Matches.{MatchProposal}
use nebengjek.Domain.Rides.{RideStatus, LocationAggregate, Ride}
use nebengjek.Riding.Laws.Starting.{new_row}
use nebengjek.Riding.Usecase.{is_duplicate}
use nebengjek.Riding.History.{totaled, billed, pickups, announced}
use nebengjek.Riding.Handler.{cost_of, entry_of, handle_location_aggregate, handle_match_accepted}
use nebengjek.Exec.Laws.{Result-cases}
use nebengjek.Riding.Laws.Billing.{billing_returned}

-- The reply of a table with a unique constraint on the match: the insert of a ride of the match,
-- made by the next CreateRide, fails as a duplicate.
abbrev pub IsTaken : Env → Uuid → History → Type 0
IsTaken env match_id t =
    (r : Ride)
    → r.match_id ≡ match_id
    → (e : Error) × (env.reply (insert_ride r) (now ∷ new_uuid ∷ t) ≡ err e)
      × (is_duplicate e ≡ true)

-- CreateRide for a match that has a ride already.
duplicate_lem :
    (env : Env) (mp : MatchProposal) (m d p : Uuid) (t : History)
    → env.parse_uuid mp.id ≡ ok m
    → env.parse_uuid mp.driver_id ≡ ok d
    → env.parse_uuid mp.passenger_id ≡ ok p
    → IsTaken env m t
    → Usecase.create_ride env mp t
      ≡ (returned tt, insert_ride (new_row env m d p t) ∷ now ∷ new_uuid ∷ t)
unfolding Usecase.create_ride Repo.create_ride
duplicate_lem env mp m d p t a b c taken =
    let (e, fails, dup) = taken (new_row env m d p t) refl in ground arith

failed-announced :
    (env : Env) (mp : MatchProposal) (e : Error) (t : History)
    → (Usecase.create_ride env mp t).0 ≡ failed e
    → announced env (Usecase.create_ride env mp t).1 ≡ announced env t
unfolding Usecase.create_ride Repo.create_ride announced
failed-announced env mp e t h = ground arith

-- An accepted match is made a ride once: if the table then holds its ride, a message that is
-- delivered again is acknowledged and publishes no second pickup.
pub accepted_once :
    (env : Env) (decode : Str → Result MatchProposal) (msg : Str) (mp : MatchProposal)
    (m d p : Uuid) (t : History)
    → decode msg ≡ ok mp
    → env.parse_uuid mp.id ≡ ok m
    → env.parse_uuid mp.driver_id ≡ ok d
    → env.parse_uuid mp.passenger_id ≡ ok p
    → let t' = (handle_match_accepted env decode msg t).1 in
      IsTaken env m t'
      → let (again, t'') = handle_match_accepted env decode msg t' in
        (again ≡ returned tt) × (pickups t'' ≡ pickups t')
unfolding handle_match_accepted pickups
accepted_once env decode msg mp m d p t decoded a b c taken =
    let same = duplicate_lem env mp m d p (handle_match_accepted env decode msg t).1 a b c taken in
    (ground arith, ground arith)

-- A lost pickup: if the first delivery fails and the table holds the ride all the same, as it does
-- when only the publication has failed, then the second delivery is acknowledged, and no pickup
-- has been published with success.
pub pickup_lost :
    (env : Env) (decode : Str → Result MatchProposal) (msg : Str) (mp : MatchProposal)
    (m d p : Uuid) (e : Error) (t : History)
    → decode msg ≡ ok mp
    → env.parse_uuid mp.id ≡ ok m
    → env.parse_uuid mp.driver_id ≡ ok d
    → env.parse_uuid mp.passenger_id ≡ ok p
    → (handle_match_accepted env decode msg t).0 ≡ failed e
    → let t' = (handle_match_accepted env decode msg t).1 in
      IsTaken env m t'
      → let (again, t'') = handle_match_accepted env decode msg t' in
        (again ≡ returned tt) × (announced env t'' ≡ announced env t)
unfolding handle_match_accepted announced
pickup_lost env decode msg mp m d p e t decoded a b c h taken =
    let same = duplicate_lem env mp m d p (handle_match_accepted env decode msg t).1 a b c taken in
    let first = failed-announced env mp e t in (ground arith, ground arith)

-- A location aggregate that is acknowledged was either below the minimum distance, and changed
-- nothing, or its ride was ongoing, and the rounded price of its distance was added once to the
-- ledger and once to the total.
pub aggregate_returned :
    (env : Env) (decode : Str → Result LocationAggregate) (msg : Str) (t : History)
    → (handle_location_aggregate env decode msg t).0 ≡ returned tt
    → let t' = (handle_location_aggregate env decode msg t).1 in
      (update : LocationAggregate) × (decode msg ≡ ok update)
      × ((env.floats.le env.cfg.min_distance_km update.distance ≡ false) × (t' ≡ t)
          ⊎ (id : Uuid) × (ride : Ride) × (env.floats.le env.cfg.min_distance_km update.distance
              ≡ true)
            × (env.ride_reply (select_ride id) t ≡ ok ride)
            × (ride.status ≡ RideStatus.ongoing)
            × (billed env t' ≡ cost_of env update.distance + billed env t)
            × (totaled env t' ≡ cost_of env update.distance + totaled env t))
unfolding handle_location_aggregate entry_of
aggregate_returned env decode msg t h = elim (Result-cases (decode msg)) [
  | inr (x, a) ↦ absurd (ground arith)
  | inl (u, a) ↦ elim (Bool-cases (env.floats.le env.cfg.min_distance_km u.distance)) [
    | inr b ↦ (u, a, inl (b, ground arith))
    | inl b ↦ elim (Result-cases (env.parse_uuid u.ride_id)) [
      | inr (x, c) ↦ absurd (ground arith)
      | inl (i, c) ↦
          let (id, ride, q, r, s, f, g) =
            billing_returned env u.ride_id (entry_of env i u.distance) t (ground arith) in
          (u, a, inr (id, ride, b, r, s, ground arith, ground arith))
    ]
  ]
]
